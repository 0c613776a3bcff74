-- ===== src/System/Tests/Uploads.antt =====
-- The theorems of the signature, of the STOP decisions and of the audit log at work.
use easygas_guide_server.Common.{none, some, [], ◌∷◌, ◌≡◌, refl, arith, text, count, ◌⊎◌}
use easygas_guide_server.Api.{Result, ok, err}
use easygas_guide_server.Store.{Db, JobStatus, StepStatus, StopApproval, ApprovalStatus}
use easygas_guide_server.RiskEvents.{is_open_stop_risk}
use easygas_guide_server.Checklist.Stop.{PendingStop, approve_stop, reject_stop}
use easygas_guide_server.Checklist.Decisions.{approve_stop_clears, reject_stop_keeps_one}
use easygas_guide_server.Completion.Sign.{
  Registered, is_live_signature, register_signature, save_signature, stored_size,
}
use easygas_guide_server.Completion.Signing.{Signed, save_signature-Signed}
use easygas_guide_server.Completion.Live.{OneLive, register_signature-OneLive}
use easygas_guide_server.System.{reject, serve}
use easygas_guide_server.System.Audit.{Recorded}
use easygas_guide_server.System.Audit.Requests.{serve-Recorded}
use easygas_guide_server.System.Fixtures.{
  chief, technician, the_job, the_step, the_stop, the_stop_step, the_photo, the_measurement,
  the_checklist, the_signature, store, digests, after, the_upload,
}

-- A job whose signature was taken before something material changed.
abbrev stale : Db
stale =
    store (the_job JobStatus.in_progress 1) (the_checklist (some 2) ∷ [])
      (the_step StepStatus.completed ∷ []) (the_photo ∷ []) (the_measurement ∷ [])
      (record the_signature { summary_digest = some 6 } ∷ [])

abbrev signed : Db
signed =
    (save_signature digests technician 1 the_upload (some 7) 30 (stored_size 50) (λ db. db) stale).0

save_signature-Signed_example :
    (reg : Registered) × (register_signature digests technician 1 the_upload (some 7) 30 stale
      ≡ ok reg)
    × Signed 1 the_upload (stored_size 50) (λ db. db) reg signed
unfolding save_signature easygas_guide_server.Store.find_job easygas_guide_server.Rbac.in_scope
    easygas_guide_server.Rbac.jobs_branch_scope easygas_guide_server.Jobs.is_workable
    easygas_guide_server.Store.find_checklist
    easygas_guide_server.Completion.Summary.current_summary_digest
    easygas_guide_server.Completion.Summary.collect_material
save_signature-Signed_example =
    save_signature-Signed digests technician 1 the_upload (some 7) 30 (stored_size 50) (λ db. db)
      stale signed refl

abbrev registered : Result Registered → Registered
registered (ok r) = r
registered (err e) = record { id = 0; cycle = 0; db = stale }

abbrev pending : Registered
pending = registered (register_signature digests technician 1 the_upload (some 7) 30 stale)

one_signature : OneLive stale
unfolding count is_live_signature
one_signature job_id cycle = ground arith

register_signature-OneLive_example : OneLive pending.db
unfolding register_signature easygas_guide_server.Store.find_job easygas_guide_server.Rbac.in_scope
    easygas_guide_server.Rbac.jobs_branch_scope easygas_guide_server.Jobs.is_workable
    easygas_guide_server.Store.find_checklist
    easygas_guide_server.Completion.Summary.current_summary_digest
    easygas_guide_server.Completion.Summary.collect_material
register_signature-OneLive_example =
    register_signature-OneLive digests technician 1 the_upload (some 7) 30 stale pending
      one_signature refl

abbrev the_approval : StopApproval
the_approval = record {
  id = 71;
  job_id = 1;
  job_step_id = 12;
  status = ApprovalStatus.pending;
  attempt = 1;
  submitted_by = 5;
  decided_by = none;
  decided_at = none;
  reject_reason = none;
}

-- The STOP step waits for a decision.
abbrev waiting : Db
waiting =
    record (store (the_job JobStatus.waiting_stop_approval 1) (the_checklist none ∷ [])
      (the_step StepStatus.completed ∷ the_stop_step StepStatus.waiting_approval ∷ []) [] [] []) {
        approvals = the_approval ∷ [];
      }

abbrev the_pending : PendingStop
the_pending = record {
  job = the_job JobStatus.waiting_stop_approval 1;
  approval = the_approval;
  step = the_stop_step StepStatus.waiting_approval;
  template = the_stop;
}

abbrev refused : Db
refused = after (reject_stop chief 1 (text "z") 40 waiting) waiting

reject_stop_keeps_one_example : count (is_open_stop_risk 1 1 12) refused.risks ≡ 1
unfolding easygas_guide_server.Checklist.Stop.lock_pending_stop easygas_guide_server.Store.find_job
    easygas_guide_server.Rbac.in_scope easygas_guide_server.Rbac.jobs_branch_scope count reject_stop
    easygas_guide_server.RiskEvents.link_stop_rejection_risk
    easygas_guide_server.RiskPolicy.assess_risk
reject_stop_keeps_one_example =
    reject_stop_keeps_one chief 1 (text "z") 40 the_pending waiting refused refl (omega arith) refl

-- The rejected step was submitted again.
abbrev again : Db
again = record waiting { risks = refused.risks }

abbrev accepted : Db
accepted = after (approve_stop chief 1 41 again) again

approve_stop_clears_example : count (is_open_stop_risk 1 1 12) accepted.risks ≡ 0
unfolding easygas_guide_server.Checklist.Stop.lock_pending_stop easygas_guide_server.Store.find_job
    easygas_guide_server.Rbac.in_scope easygas_guide_server.Rbac.jobs_branch_scope approve_stop
approve_stop_clears_example = approve_stop_clears chief 1 41 the_pending again accepted refl refl

serve-Recorded_example : (refused ≡ waiting) ⊎ Recorded 2 waiting.audit refused.audit
unfolding serve reject_stop easygas_guide_server.Store.find_job easygas_guide_server.Rbac.in_scope
    easygas_guide_server.Rbac.jobs_branch_scope
    easygas_guide_server.RiskEvents.link_stop_rejection_risk
    easygas_guide_server.RiskPolicy.assess_risk
serve-Recorded_example = serve-Recorded digests chief 40 (reject 1 (text "z")) waiting refused refl
