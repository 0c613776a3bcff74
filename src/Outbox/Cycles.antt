-- ===== src/Outbox/Cycles.antt =====
-- A whole cycle of the worker, `runOnce` of sms.worker.ts, as a course of the outbox.
use easygas_guide_server.Common.{
  ℕ, Bool, not, ◌||◌, List, [], ◌∷◌, ◌++◌, refl, subst, Text, Bool-cases, inl, inr,
}
use mathlib.Core.List.{append-nil}
use easygas_guide_server.Sessions.{Clock}
use easygas_guide_server.Outbox.{
  Sms, SmsConfig, Delivery, recover_stale_leases, deliver_all, run_once,
}
use easygas_guide_server.Outbox.Attempts.{Outboxes, Runs, recovers, claims, delivers}

module _ (max : ℕ) (start : Outboxes) (answers : Sms → Delivery × Clock) where
  deliver_all-Runs :
      (xs ms rows : List Sms)
      → Runs max start (record { rows = rows; in_hand = xs ++ ms })
      → Runs max start (record { rows = deliver_all answers ms rows; in_hand = xs })
  unfolding deliver_all
  deliver_all-Runs xs [] rows r =
      subst (λ h. Runs max start (record { rows = rows; in_hand = h })) (append-nil xs) r
  deliver_all-Runs xs (m ∷ ms) rows r =
      deliver_all-Runs xs ms _ (delivers (answers m).0 (answers m).1 m xs ms refl r)

  -- Whatever course led to it, a cycle of a worker continues it and leaves nothing in the worker's
  -- hands: what it claims, it delivers.
  run_once-Runs :
      (stopping ready : Bool) (config : SmsConfig) (worker : Text) (limit now : ℕ) (o : Outboxes)
      → Runs max start o
      → Runs max start
          (record o { rows = (run_once stopping ready config worker limit now answers o.rows).1 })
  unfolding run_once
  run_once-Runs stopping ready config worker limit now o r =
      elim (Bool-cases (stopping || not ready)) [
        | inl idle ↦ rw idle r
        | inr works ↦ rw works (
            deliver_all-Runs o.in_hand _ _
              (claims config worker limit now (recover_stale_leases now o.rows) (recovers now r)))
      ]
