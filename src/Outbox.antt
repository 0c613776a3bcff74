-- ===== src/Outbox.antt =====
-- src/sms: the durable outbox of text messages. outbox.service.ts queues a message, sms.worker.ts
-- claims, delivers, retries and cancels. The cipher is a pair of arguments, and so are SHA-256, the
-- provider's answer and the jitter of the backoff. `db` is the clock of SQL conditions, here in
-- seconds, `js` the one of `Date.now()`. Log lines, counters and the worker's timer are left out.
pub mod Enqueue
pub mod Claims
pub mod Attempts
pub mod Retry
pub mod Cycles
use Prim.Native.String.{String}
use easygas_guide_server.Common.{
  ℕ, zero, suc, ◌+◌, ◌-◌, ◌*◌, ◌/◌, ◌^◌, min, Bool, true, false, not, ◌||◌, ◌&&◌, Option, none,
  some, List, [], ◌∷◌, ◌++◌, ◌==◌, leb, ltb, find, filter, update, count, sort_on, map, Text, text,
  text_eq, slice_to, length, if◌then◌else◌,
}
use easygas_guide_server.Sessions.{Clock}
use easygas_guide_server.Phone.{normalize_phone}

pub data SmsStatus : Type 0 where
  pending processing sent delivered retry failed cancelled : SmsStatus

abbrev pub is_queued : SmsStatus → Bool
is_queued SmsStatus.pending = true
is_queued SmsStatus.retry = true
is_queued _ = false

abbrev pub is_processing : SmsStatus → Bool
is_processing SmsStatus.processing = true
is_processing _ = false

abbrev pub is_final : SmsStatus → Bool
is_final SmsStatus.sent = true
is_final SmsStatus.delivered = true
is_final SmsStatus.failed = true
is_final SmsStatus.cancelled = true
is_final _ = false

pub record Sms : Type 0 where
  pub id : ℕ
  pub kind : Text
  pub user_id : Option ℕ
  pub recipient : Text
  pub template_key : Option Text
  pub payload_cipher : Text
  pub status : SmsStatus
  pub attempts : ℕ
  pub max_attempts : ℕ
  pub next_attempt_at : ℕ
  pub not_after : ℕ
  pub lease_owner : Option Text
  pub lease_expires_at : Option ℕ
  pub provider : Option Text
  pub provider_message_id : Option Text
  pub last_error : Option Text
  pub sent_at : Option ℕ
  pub failed_at : Option ℕ

-- The settings of src/config/env.ts.
pub record SmsConfig : Type 0 where
  pub max_attempts : ℕ
  pub max_age_seconds : ℕ
  pub lease_seconds : ℕ

-- `encrypt message aad` and `decrypt cipher aad`, where none is a body that does not verify.
pub record Cipher : Type 0 where
  pub encrypt : Text → Text → Text
  pub decrypt : Text → Text → Option Text
  pub sha256 : Text → Text

abbrev pub otp : Text
unfolding text
otp = text "OTP"

-- `smsAad`
unfoldable pub sms_aad : Cipher → Text → Text → Text
unfolding text
sms_aad cipher kind recipient =
    text "sms-outbox:v1:" ++ kind ++ text ":" ++ slice_to 32 (cipher.sha256 recipient)

pub record EnqueueInput : Type 0 where
  pub user_id : Option ℕ
  pub phone : Text
  pub message : Text

unfoldable pub is_queued_otp : Text → Sms → Bool
is_queued_otp recipient m =
    text_eq m.recipient recipient && (text_eq m.kind otp && is_queued m.status)

unfoldable pub cancel_superseded : Text → List Sms → List Sms
unfolding is_queued_otp
cancel_superseded recipient rows =
    update (is_queued_otp recipient)
      (λ m. record m { status = SmsStatus.cancelled; last_error = some (text "SUPERSEDED") }) rows

unfoldable pub queued_otp : Cipher → SmsConfig → ℕ → EnqueueInput → Text → Clock → Sms
queued_otp cipher config id input recipient now = record {
  id = id;
  kind = otp;
  user_id = input.user_id;
  recipient = recipient;
  template_key = some (text "otp_reset_v1");
  payload_cipher = cipher.encrypt input.message (sms_aad cipher otp recipient);
  status = SmsStatus.pending;
  attempts = 0;
  max_attempts = config.max_attempts;
  next_attempt_at = now.db;
  not_after = now.js + config.max_age_seconds * 1000;
  lease_owner = none;
  lease_expires_at = none;
  provider = none;
  provider_message_id = none;
  last_error = none;
  sent_at = none;
  failed_at = none;
}

-- `enqueueOtpSms`; none where it throws. `id` is the table's next automatic id.
unfoldable pub enqueue_otp_sms :
    Cipher → SmsConfig → ℕ → EnqueueInput → Clock → List Sms → Option (List Sms)
unfolding cancel_superseded queued_otp
enqueue_otp_sms cipher config id input now rows = elim (normalize_phone input.phone) [
  | none ↦ none
  | some recipient ↦
      some
        (cancel_superseded recipient rows ++ queued_otp cipher config id input recipient now ∷ [])
]

-- `recoverStaleLeases`
unfoldable pub is_stale : ℕ → Sms → Bool
is_stale now m =
    is_processing m.status && elim m.lease_expires_at [ none ↦ false | some at ↦ ltb at now ]

unfoldable pub recover_stale_leases : ℕ → List Sms → List Sms
unfolding is_stale
recover_stale_leases now rows =
    update (is_stale now) (λ m. record m { status = SmsStatus.retry; lease_owner = none }) rows

unfoldable pub is_due : ℕ → Sms → Bool
is_due now m = is_queued m.status && leb m.next_attempt_at now

abbrev pub take : ℕ → List ℕ → List ℕ
take zero xs = []
take (suc n) [] = []
take (suc n) (x ∷ xs) = x ∷ take n xs

-- The ids that `claim` reads first.
unfoldable pub candidates : ℕ → ℕ → List Sms → List ℕ
unfolding is_due sort_on
candidates limit now rows =
    take limit
      (map (λ (m : Sms). m.id) (sort_on (λ m. m.next_attempt_at) (filter (is_due now) rows)))

unfoldable pub claim_write : SmsConfig → Text → ℕ → Sms → Sms
claim_write config worker now m = record m {
  status = SmsStatus.processing;
  lease_owner = some worker;
  lease_expires_at = some (now + config.lease_seconds);
}

-- The conditional update of one candidate, and the row read back where exactly one row was hit.
unfoldable pub claim_one : SmsConfig → Text → ℕ → ℕ → List Sms → Option Sms × List Sms
unfolding claim_write is_due
claim_one config worker now id rows =
    let after = update (λ m. m.id == id && is_due now m) (claim_write config worker now) rows in
    (
      if count (λ m. m.id == id && is_due now m) rows == 1
          then find (λ m. m.id == id) after
          else none,
      after,
    )

-- `if (n === 1) claimed.push(row)`
abbrev pub pushed : Option Sms → List Sms → List Sms
pushed none claimed = claimed
pushed (some row) claimed = row ∷ claimed

-- The loop of `claim`.
unfoldable pub claim_rows : SmsConfig → Text → ℕ → List ℕ → List Sms → List Sms × List Sms
unfolding claim_one
claim_rows config worker now [] rows = ([], rows)
claim_rows config worker now (id ∷ ids) rows =
    let (row, after) = claim_one config worker now id rows in
    let (claimed, last) = claim_rows config worker now ids after in (pushed row claimed, last)

-- `claim`: candidates are read from `before`, and each is updated where it still is due in `rows`.
unfoldable pub claim : SmsConfig → Text → ℕ → ℕ → (before rows : List Sms) → List Sms × List Sms
unfolding candidates claim_rows
claim config worker limit now before rows =
    claim_rows config worker now (candidates limit now before) rows

pub data FailureKind : Type 0 where
  retryable permanent ambiguous : FailureKind

-- What `provider.send` comes to: its result, or the classified error that it throws; an error of
-- another class counts as RETRYABLE with the code SEND_ERROR.
pub data SendAnswer : Type 0 where
  accepted confirmed : Option Text → SendAnswer
  refused : FailureKind → Text → SendAnswer
  crashed : SendAnswer

abbrev pub kind_text : FailureKind → Text
unfolding text
kind_text FailureKind.retryable = text "RETRYABLE"
kind_text FailureKind.permanent = text "PERMANENT"
kind_text FailureKind.ambiguous = text "AMBIGUOUS"

-- `${kind}:${code}`, cut to 60 characters
unfoldable pub error_text : FailureKind → Text → Text
error_text kind code = slice_to 60 (kind_text kind ++ 58 ∷ code)

-- `backoffMs`: the jitter multiplies by 0.8 to 1.2 and rounds down.
unfoldable pub backoff_ms : (ℕ → ℕ) → ℕ → ℕ
backoff_ms jitter attempts = jitter (min (5_000 * 2 ^ (attempts - 1)) 300_000)

-- What surrounds one delivery.
pub record Delivery : Type 0 where
  pub cipher : Cipher
  pub provider : Text
  pub answer : SendAnswer
  pub jitter : ℕ → ℕ

-- `markTerminal`
abbrev pub release : Sms → Sms
release m = record m { lease_owner = none; lease_expires_at = none }

unfoldable pub mark_failed : ℕ → Text → ℕ → Sms → Sms
mark_failed attempts error now m = release (record m {
  status = SmsStatus.failed;
  attempts = attempts;
  last_error = some error;
  failed_at = some now;
})

unfoldable pub mark_sent : SmsStatus → ℕ → Text → Option Text → ℕ → Sms → Sms
mark_sent status attempts provider message_id now m = release (record m {
  status = status;
  attempts = attempts;
  provider = some provider;
  provider_message_id = message_id;
  last_error = none;
  sent_at = some now;
})

unfoldable pub mark_retry : ℕ → Text → ℕ → Sms → Sms
mark_retry attempts error next m = release (record m {
  status = SmsStatus.retry;
  attempts = attempts;
  last_error = some error;
  next_attempt_at = next;
})

-- The error branches of `deliver`, for the row as it was claimed.
unfoldable pub send_failed : Delivery → Sms → FailureKind → Text → Clock → Sms → Sms
unfolding mark_failed mark_retry backoff_ms
send_failed d row FailureKind.ambiguous code now m =
    mark_failed (suc row.attempts) (error_text FailureKind.ambiguous code) now.db m
send_failed d row FailureKind.permanent code now m =
    mark_failed (suc row.attempts) (error_text FailureKind.permanent code) now.db m
send_failed d row FailureKind.retryable code now m =
    if leb row.max_attempts (suc row.attempts)
    then mark_failed (suc row.attempts) (error_text FailureKind.retryable code) now.db m
    else mark_retry (suc row.attempts) (error_text FailureKind.retryable code)
        (now.db + (backoff_ms d.jitter (suc row.attempts) + 999) / 1000) m

-- What `deliver` writes once the provider answered.
unfoldable pub answered : Delivery → Sms → SendAnswer → Clock → Sms → Sms
unfolding mark_sent send_failed text
answered d row (SendAnswer.accepted message_id) now m =
    mark_sent SmsStatus.sent (suc row.attempts) d.provider message_id now.db m
answered d row (SendAnswer.confirmed message_id) now m =
    mark_sent SmsStatus.delivered (suc row.attempts) d.provider message_id now.db m
answered d row (SendAnswer.refused kind code) now m = send_failed d row kind code now m
answered d row SendAnswer.crashed now m =
    send_failed d row FailureKind.retryable (text "SEND_ERROR") now m

-- `row.not_after` has passed.
abbrev pub is_late : Clock → Sms → Bool
is_late now row = leb row.not_after now.js

abbrev pub opened : Delivery → Sms → Option Text
opened d row = d.cipher.decrypt row.payload_cipher (sms_aad d.cipher row.kind row.recipient)

-- The write of `deliver` to the row of the claimed id.
unfoldable pub delivery_write : Delivery → Sms → Clock → Sms → Sms
unfolding answered mark_failed text
delivery_write d row now m =
    if is_late now row
    then release (record m {
      status = SmsStatus.cancelled;
      last_error = some (text "EXPIRED_BEFORE_SEND");
      failed_at = some now.db;
    })
    else elim (opened d row) [
      | none ↦ mark_failed (suc row.attempts) (text "PAYLOAD_DECRYPT") now.db m
      | some message ↦ answered d row d.answer now m
    ]

-- What `deliver` hands to the provider: recipient and message.
unfoldable pub sent_text : Delivery → Sms → Clock → Option (Text × Text)
sent_text d row now =
    if is_late now row
    then none
    else elim (opened d row) [ none ↦ none | some message ↦ some (row.recipient, message) ]

-- `deliver`, for the row as it was claimed; the table may have changed since.
unfoldable pub deliver : Delivery → Sms → Clock → List Sms → List Sms
unfolding delivery_write
deliver d row now rows = update (λ m. m.id == row.id) (delivery_write d row now) rows

-- `processPool`, for the rows in the order of their delivery.
unfoldable pub deliver_all : (Sms → Delivery × Clock) → (claimed rows : List Sms) → List Sms
unfolding deliver
deliver_all answers [] rows = rows
deliver_all answers (m ∷ ms) rows =
    deliver_all answers ms (deliver (answers m).0 m (answers m).1 rows)

-- `runOnce`: how many messages it claimed, and the table. `ready` says whether the provider is usable.
unfoldable pub run_once :
    (stopping ready : Bool)
    → SmsConfig
    → Text
    → (limit now : ℕ) → (Sms → Delivery × Clock)
    → List Sms
    → ℕ × List Sms
unfolding recover_stale_leases claim deliver_all
run_once stopping ready config worker limit now answers rows =
    if stopping || not ready
    then (0, rows)
    else let recovered = recover_stale_leases now rows in
      let (claimed, after) = claim config worker limit now recovered recovered in
      (length claimed, deliver_all answers claimed after)
