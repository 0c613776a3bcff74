-- ===== src/Checklist/Decisions.antt =====
-- What the decisions on a STOP do to the risk that its rejections link.
use easygas_guide_server.Common.{arith, ℕ, ◌≤◌, Text, ◌≡◌, sym, ap, count, text, ◌∙◌}
use easygas_guide_server.Api.{ok, >>=-eq-ok, ok-injective}
use easygas_guide_server.Rbac.{Actor}
use easygas_guide_server.Store.{Db}
use easygas_guide_server.RiskEvents.{is_open_stop_risk, link_stop_rejection_risk, resolve_stop_risk}
use easygas_guide_server.RiskEvents.Blocking.{link_keeps_one, resolve_stop_risk_clears}
use easygas_guide_server.Checklist.{complete_checklist_if_done}
use easygas_guide_server.Checklist.Stop.{
  PendingStop, lock_pending_stop, approve_writes, approve_stop, reject_stop,
}

complete_checklist_if_done-risks :
    (id now : ℕ) (db : Db) → (complete_checklist_if_done id now db).risks ≡ db.risks
unfolding complete_checklist_if_done
complete_checklist_if_done-risks id now db = ground arith

approve_writes-risks :
    (actor : Actor) (job_id : ℕ) (p : PendingStop) (now : ℕ) (db : Db)
    → (approve_writes actor job_id p now db).risks
      ≡ (resolve_stop_risk job_id p.job.cycle p.step.id actor.id p.approval.id now
          (text "STOP tasdiqlandi (mitigatsiya qabul qilindi)")
          db).risks
unfolding approve_writes
approve_writes-risks actor job_id p now db =
    complete_checklist_if_done-risks p.step.job_checklist_id now _

-- Once a STOP is approved, no risk that its rejections linked to the step is open in the cycle.
pub approve_stop_clears :
    (actor : Actor) (job_id now : ℕ) (p : PendingStop) (db r : Db)
    → lock_pending_stop actor job_id db ≡ ok p
    → approve_stop actor job_id now db ≡ ok r
    → count (is_open_stop_risk job_id p.job.cycle p.step.id) r.risks ≡ 0
unfolding approve_stop
approve_stop_clears actor job_id now p db r locked h =
    let (q, locked', h1) = >>=-eq-ok (lock_pending_stop actor job_id db) _ h in
    let same : q ≡ p = ok-injective (sym locked' ∙ locked) in
    rw (← same, ← ok-injective h1)
      (ap (count (is_open_stop_risk job_id q.job.cycle q.step.id))
          (approve_writes-risks actor job_id q now db)
        ∙ resolve_stop_risk_clears job_id q.job.cycle q.step.id actor.id q.approval.id now _ db)

-- Once a STOP is rejected, exactly one risk linked to the step is open in the cycle, where there
-- was at most one before.
pub reject_stop_keeps_one :
    (actor : Actor) (job_id : ℕ) (reason : Text) (now : ℕ) (p : PendingStop) (db r : Db)
    → lock_pending_stop actor job_id db ≡ ok p
    → count (is_open_stop_risk job_id p.job.cycle p.step.id) db.risks ≤ 1
    → reject_stop actor job_id reason now db ≡ ok r
    → count (is_open_stop_risk job_id p.job.cycle p.step.id) r.risks ≡ 1
unfolding reject_stop
reject_stop_keeps_one actor job_id reason now p db r locked few h =
    let (q, locked', h1) = >>=-eq-ok (lock_pending_stop actor job_id db) _ h in
    let same : p ≡ q = ok-injective (sym locked ∙ locked') in
    let (linked, link, h2) = >>=-eq-ok (link_stop_rejection_risk _ _) _ h1 in
    rw (← ok-injective h2, same) (link_keeps_one _ _ linked (rw same at few) link)
