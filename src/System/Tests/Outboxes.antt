-- ===== src/System/Tests/Outboxes.antt =====
-- The theorems of the outbox of text messages at work.
use easygas_guide_server.Common.{
  ℕ, ◌≤◌, ◌<◌, Bool, true, false, Option, none, some, List, [], ◌∷◌, ◌++◌, ◌≡◌, refl, arith, ◌==◌,
  count, Text, text, text_eq, All,
}
use easygas_guide_server.Sessions.{Clock}
use easygas_guide_server.Phone.{normalize_phone}
use easygas_guide_server.Outbox.{
  Sms, SmsStatus, SmsConfig, Cipher, EnqueueInput, Delivery, SendAnswer, FailureKind, is_queued_otp,
  queued_otp, enqueue_otp_sms, claim, claim_one, sent_text, is_final,
}
use easygas_guide_server.Outbox.Enqueue.{Superseded, enqueue_otp_sms-one, enqueue_otp_sms-sent}
use easygas_guide_server.Outbox.Claims.{IsKeyed, claim-exclusive}
use easygas_guide_server.Outbox.Attempts.{Outboxes, Runs, AllSound, Sound, Runs-AllSound}
use easygas_guide_server.Outbox.Retry.{Cycle, cycles, cycles-ends}

abbrev config : SmsConfig
config = record { max_attempts = 2; max_age_seconds = 300; lease_seconds = 60 }

-- A cipher that keeps the message, and checks nothing.
abbrev plain : Cipher
plain = record { encrypt = λ m a. m; decrypt = λ c a. some c; sha256 = λ s. s }

abbrev input : EnqueueInput
input = record { user_id = some 5; phone = text "90 123-45-67"; message = text "123456" }

abbrev phone : Text
phone = text "+998901234567"

abbrev clock : ℕ → Clock
clock t = record { js = t; db = t }

abbrev waiting : ℕ → Sms
waiting id = queued_otp plain config id input phone (clock 0)

abbrev queued : List Sms
queued =
    record (waiting 1) { status = SmsStatus.cancelled; last_error = some (text "SUPERSEDED") }
    ∷ waiting 2
    ∷ []

-- A second password for the same number.
enqueue_otp_sms-one_example :
    (recipient : Text) × (normalize_phone input.phone ≡ some recipient)
    × Superseded recipient
        (queued_otp plain config 2 input recipient (clock 0))
        (waiting 1 ∷ [])
        queued
    × (count (is_queued_otp recipient) queued ≡ 1)
    × ((other : Text)
        → text_eq recipient other ≡ false
        → count (is_queued_otp other) queued ≡ count (is_queued_otp other) (waiting 1 ∷ []))
unfolding enqueue_otp_sms normalize_phone easygas_guide_server.Common.filter text
    easygas_guide_server.Phone.is_digit easygas_guide_server.Common.update text_eq
enqueue_otp_sms-one_example =
    enqueue_otp_sms-one plain config 2 input (clock 0) (waiting 1 ∷ []) queued refl

abbrev failing : Delivery
failing = record {
  cipher = plain;
  provider = text "test";
  answer = SendAnswer.refused FailureKind.retryable (text "TIMEOUT");
  jitter = λ n. n;
}

unused : count (λ (m : Sms). m.id == 2) (waiting 1 ∷ []) ≡ 0
unfolding count queued_otp
unused = refl

enqueue_otp_sms-sent_example :
    (recipient : Text) × (row : Sms) × (normalize_phone input.phone ≡ some recipient)
    × ((claim_one config (text "w") 3 2 queued).0 ≡ some row)
    × (sent_text failing row (clock 4) ≡ some (recipient, input.message))
unfolding enqueue_otp_sms normalize_phone easygas_guide_server.Common.filter text
    easygas_guide_server.Phone.is_digit easygas_guide_server.Common.update text_eq
enqueue_otp_sms-sent_example =
    enqueue_otp_sms-sent failing config 2 input (text "w") (clock 0) 3 (clock 4) (waiting 1 ∷ [])
      queued (λ m a. refl) unused (ground arith) (ground arith) refl

queued-IsKeyed : IsKeyed queued
unfolding IsKeyed count queued_otp
queued-IsKeyed id = ground arith

claim-exclusive_example :
    All
      (λ m.
        All
          (λ x. (x.id == m.id) ≡ false)
          (claim config (text "b") 5 4 queued (claim config (text "a") 5 3 queued queued).1).0)
      (claim config (text "a") 5 3 queued queued).0
claim-exclusive_example =
    claim-exclusive config (text "a") (text "b") 5 3 4 queued queued queued queued-IsKeyed

abbrev fresh_outbox : Outboxes
fresh_outbox = record { rows = waiting 1 ∷ []; in_hand = [] }

first-IsKeyed : IsKeyed (waiting 1 ∷ [])
unfolding IsKeyed count queued_otp
first-IsKeyed id = ground arith

fresh_sound : AllSound 2 fresh_outbox
unfolding AllSound Sound queued_otp
fresh_sound = (first-IsKeyed, (((refl, ground arith, λ _. ground arith), tt), tt))

abbrev claimed_outbox : Outboxes
claimed_outbox = record {
  rows = (claim config (text "a") 5 3 (waiting 1 ∷ []) (waiting 1 ∷ [])).1;
  in_hand = [] ++ (claim config (text "a") 5 3 (waiting 1 ∷ []) (waiting 1 ∷ [])).0;
}

Runs-AllSound_example : AllSound 2 claimed_outbox
Runs-AllSound_example =
    Runs-AllSound 2 fresh_outbox claimed_outbox (ground arith) fresh_sound
      (Runs.claims {o = fresh_outbox} config (text "a") 5 3 (waiting 1 ∷ []) Runs.begins)

abbrev try : ℕ → Cycle
try t = record { worker = text "a"; claimed_at = t; delivery = failing; now = clock t }

cycles-ends_example : is_final (cycles config (try 3 ∷ try 9 ∷ []) (waiting 1)).status ≡ true
unfolding queued_otp
cycles-ends_example =
    cycles-ends config (try 3 ∷ try 9 ∷ []) (waiting 1) (ground arith) (ground arith)
