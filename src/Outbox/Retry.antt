-- ===== src/Outbox/Retry.antt =====
-- One message through the cycles of sms.worker.ts: claim, delivery, and again where it is retried.
use easygas_guide_server.Common.{
  ℕ, suc, ◌-◌, ◌≤◌, ◌<◌, true, false, List, [], ◌∷◌, ◌≡◌, ◌⊎◌, refl, arith, inl, inr, Text,
  Option-cases, Bool-cases, length, if◌then◌else◌, leb, subst, sym,
}
use easygas_guide_server.Sessions.{Clock}
use easygas_guide_server.Outbox.{
  Sms, SmsConfig, Delivery, FailureKind, SendAnswer, is_final, claim_write, mark_failed, mark_sent,
  mark_retry, send_failed, answered, delivery_write, is_late, opened,
}

-- What one cycle meets: when it claims and delivers, and how the delivery goes.
pub record Cycle : Type 0 where
  pub worker : Text
  pub claimed_at : ℕ
  pub delivery : Delivery
  pub now : Clock

-- A cycle takes the message up unless it is final.
pub cycle : SmsConfig → Cycle → Sms → Sms
cycle config c m =
    let row = claim_write config c.worker c.claimed_at m in
    if is_final m.status then m else delivery_write c.delivery row c.now row

pub cycles : SmsConfig → List Cycle → Sms → Sms
unfolding cycle
cycles config [] m = m
cycles config (c ∷ cs) m = cycles config cs (cycle config c m)

-- Final, or one attempt more and still below the maximum.
Nearer : Sms → Sms → Type 0
Nearer row m =
    (is_final m.status ≡ true)
    ⊎ (m.attempts ≡ suc row.attempts)
      × (m.max_attempts ≡ row.max_attempts)
      × (m.attempts < m.max_attempts)

send_failed-Nearer :
    (d : Delivery) (row : Sms) (kind : FailureKind) (code : Text) (now : Clock)
    → Nearer row (send_failed d row kind code now row)
unfolding Nearer send_failed mark_failed mark_retry
send_failed-Nearer d row FailureKind.ambiguous code now = inl refl
send_failed-Nearer d row FailureKind.permanent code now = inl refl
send_failed-Nearer d row FailureKind.retryable code now =
    elim (Bool-cases (leb row.max_attempts (suc row.attempts))) [
      | inl last ↦ rw last (inl refl)
      | inr more ↦ rw more (inr (refl, refl, ground arith))
    ]

answered-Nearer :
    (d : Delivery) (row : Sms) (answer : SendAnswer) (now : Clock)
    → Nearer row (answered d row answer now row)
unfolding Nearer answered mark_sent
answered-Nearer d row (SendAnswer.accepted x) now = inl refl
answered-Nearer d row (SendAnswer.confirmed x) now = inl refl
answered-Nearer d row (SendAnswer.refused kind code) now = send_failed-Nearer d row kind code now
answered-Nearer d row SendAnswer.crashed now = send_failed-Nearer d row FailureKind.retryable _ now

delivery_write-Nearer :
    (d : Delivery) (row : Sms) (now : Clock) → Nearer row (delivery_write d row now row)
unfolding Nearer delivery_write mark_failed
delivery_write-Nearer d row now = elim (Bool-cases (is_late now row)) [
  | inl late ↦ rw (delivery_write, late) (inl refl)
  | inr early ↦ elim (Option-cases (opened d row)) [
    | inl e ↦ rw (delivery_write, early, e) (inl refl)
    | inr (message, e) ↦ rw (delivery_write, early, e) (answered-Nearer d row d.answer now)
  ]
]

cycle_done :
    (config : SmsConfig) (c : Cycle) (m : Sms) → is_final m.status ≡ true → cycle config c m ≡ m
unfolding cycle
cycle_done config c m h = rw h refl

cycle-Nearer :
    (config : SmsConfig) (c : Cycle) (m : Sms)
    → is_final m.status ≡ false
    → Nearer m (cycle config c m)
unfolding cycle Nearer claim_write
cycle-Nearer config c m h =
    rw (cycle, h)
      (delivery_write-Nearer c.delivery (claim_write config c.worker c.claimed_at m) c.now)

cycles-final :
    (config : SmsConfig) (cs : List Cycle) (m : Sms)
    → is_final m.status ≡ true
    → is_final (cycles config cs m).status ≡ true
unfolding cycles
cycles-final config [] m h = h
cycles-final config (c ∷ cs) m h =
    subst (λ x. is_final (cycles config cs x).status ≡ true) (sym (cycle_done config c m h))
      (cycles-final config cs m h)

-- A message that is claimed and delivered again and again ends: after as many cycles as it has
-- attempts left, whatever the provider answers in each of them, it is sent, delivered, failed or
-- cancelled.
pub cycles-ends :
    (config : SmsConfig) (cs : List Cycle) (m : Sms)
    → m.attempts < m.max_attempts
    → m.max_attempts - m.attempts ≤ length cs
    → is_final (cycles config cs m).status ≡ true
unfolding cycles Nearer
cycles-ends config [] m lt h = absurd (ground arith)
cycles-ends config (c ∷ cs) m lt h = elim (Bool-cases (is_final m.status)) [
  | inl done ↦
      subst (λ x. is_final (cycles config cs x).status ≡ true) (sym (cycle_done config c m done))
        (cycles-final config cs m done)
  | inr more ↦ elim (cycle-Nearer config c m more) [
    | inl done ↦ cycles-final config cs (cycle config c m) done
    | inr (e, k, below) ↦ cycles-ends config cs (cycle config c m) below (ground arith)
  ]
]
