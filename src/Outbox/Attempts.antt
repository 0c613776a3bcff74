-- ===== src/Outbox/Attempts.antt =====
-- How often sms.worker.ts tries a message, with any number of workers at work on the outbox.
use easygas_guide_server.Common.{
  ℕ, ◌≤◌, ◌<◌, false, ◌&&◌, none, some, List, [], ◌∷◌, ◌++◌, ◌≡◌, refl, arith, inl, inr, ◌==◌, Text,
  Option-cases, Bool-cases, All, All-append, All-update, All-find, All-update_hits, count,
  count-append, count-update_same, ==-eq, text, subst, sym, ap,
}
use easygas_guide_server.Sessions.{Clock}
use easygas_guide_server.Outbox.{
  Sms, SmsStatus, SmsConfig, Cipher, EnqueueInput, Delivery, FailureKind, SendAnswer, is_final,
  is_due, is_stale, is_queued_otp, cancel_superseded, queued_otp, enqueue_otp_sms,
  recover_stale_leases, claim_write, claim_one, claim_rows, claim, candidates, mark_failed,
  mark_sent, mark_retry, send_failed, answered, delivery_write, deliver, is_late, opened,
}
use easygas_guide_server.Outbox.Enqueue.{enqueue_some}
use easygas_guide_server.Outbox.Claims.{
  IsKeyed, pushed-All, claim_one-processing, claim_one-IsKeyed, claim_rows-IsKeyed,
}

-- At most `max` attempts, and fewer while the message may still be tried.
unfoldable pub Sound : ℕ → Sms → Type 0
Sound max m =
    (m.max_attempts ≡ max) × (m.attempts ≤ max) × (is_final m.status ≡ false → m.attempts < max)

-- What a worker holds may be tried once more.
unfoldable pub Triable : ℕ → Sms → Type 0
Triable max m = (m.max_attempts ≡ max) × (m.attempts < max)

-- The table, and the rows that workers hold since they claimed them.
pub record Outboxes : Type 0 where
  pub rows : List Sms
  pub in_hand : List Sms

pub data Runs (max : ℕ) (start : Outboxes) : Outboxes → Type 0 where
  begins : Runs max start start
  enqueues :
      {o : Outboxes} (cipher : Cipher) (config : SmsConfig) (id : ℕ) (input : EnqueueInput)
      (now : Clock) (after : List Sms)
      → config.max_attempts ≡ max
      → count (λ m. m.id == id) o.rows ≡ 0
      → enqueue_otp_sms cipher config id input now o.rows ≡ some after
      → Runs max start o
      → Runs max start (record o { rows = after })
  recovers :
      {o : Outboxes} (now : ℕ)
      → Runs max start o
      → Runs max start (record o { rows = recover_stale_leases now o.rows })
  claims :
      {o : Outboxes} (config : SmsConfig) (worker : Text) (limit now : ℕ) (before : List Sms)
      → Runs max start o
      → Runs max start (record {
        rows = (claim config worker limit now before o.rows).1;
        in_hand = o.in_hand ++ (claim config worker limit now before o.rows).0;
      })
  delivers :
      {o : Outboxes} (d : Delivery) (now : Clock) (row : Sms) (xs ys : List Sms)
      → o.in_hand ≡ xs ++ row ∷ ys
      → Runs max start o
      → Runs max start (record { rows = deliver d row now o.rows; in_hand = xs ++ ys })

unfoldable pub AllSound : ℕ → Outboxes → Type 0
AllSound max o = IsKeyed o.rows × (All (Sound max) o.rows × All (Triable max) o.in_hand)

All-without {ℓ} :
    (P : Sms → Type ℓ) (m : Sms) (xs ys : List Sms) → All P (xs ++ m ∷ ys) → P m × All P (xs ++ ys)
All-without P m [] ys (h, hs) = (h, hs)
All-without P m (x ∷ xs) ys (h, hs) = let (k, ks) = All-without P m xs ys hs in (k, (h, ks))

module _ (max : ℕ) where
  superseded-Sound :
      (recipient : Text) (rows : List Sms)
      → All (Sound max) rows
      → All (Sound max) (cancel_superseded recipient rows)
  unfolding cancel_superseded Sound
  superseded-Sound recipient rows h =
      All-update (Sound max) (is_queued_otp recipient)
        (λ m. record m { status = SmsStatus.cancelled; last_error = some (text "SUPERSEDED") }) rows
        (λ m s. (s.0, s.1, λ e. absurd (ground arith))) h

  superseded-IsKeyed :
      (recipient : Text) (rows : List Sms) (new : Sms)
      → count (λ m. m.id == new.id) rows ≡ 0
      → IsKeyed rows
      → IsKeyed (cancel_superseded recipient rows ++ new ∷ [])
  unfolding cancel_superseded IsKeyed count
  superseded-IsKeyed recipient rows new unused key i =
      let w : Sms → Sms =
        λ m. record m { status = SmsStatus.cancelled; last_error = some (text "SUPERSEDED") } in
      let same = count-update_same (λ m. m.id == i) (is_queued_otp recipient) w rows (λ m. refl) in
      ground (
        arith,
        same,
        key i,
        unused,
        ==-eq new.id i,
        count-append (λ m. m.id == i) (cancel_superseded recipient rows) (new ∷ []),
      )

  enqueue-Sound :
      (cipher : Cipher) (config : SmsConfig) (id : ℕ) (input : EnqueueInput) (now : Clock)
      (rows after : List Sms)
      → 0 < max
      → config.max_attempts ≡ max
      → count (λ m. m.id == id) rows ≡ 0
      → enqueue_otp_sms cipher config id input now rows ≡ some after
      → IsKeyed rows
      → All (Sound max) rows
      → IsKeyed after × All (Sound max) after
  unfolding queued_otp Sound
  enqueue-Sound cipher config id input now rows after pos same unused e key h =
      let (recipient, _, shape) = enqueue_some cipher config id input now rows after e in
      let new = queued_otp cipher config id input recipient now in
      (
        subst IsKeyed (sym shape) (superseded-IsKeyed recipient rows new unused key),
        subst (All (Sound max)) (sym shape) (
            All-append (Sound max) (cancel_superseded recipient rows) (new ∷ [])
              (superseded-Sound recipient rows h) ((same, ground arith, λ _. pos), tt)),
      )

  claim_one-Sound :
      (config : SmsConfig) (worker : Text) (now id : ℕ) (rows : List Sms)
      → All (Sound max) rows
      → All (Sound max) (claim_one config worker now id rows).1
  unfolding claim_one claim_write Sound is_due
  claim_one-Sound config worker now id rows h =
      All-update_hits (Sound max) (λ m. m.id == id && is_due now m) (claim_write config worker now)
        rows (λ m hit s. (s.0, s.1, λ e. s.2 (ground arith))) h

  claim_one-Triable :
      (config : SmsConfig) (worker : Text) (now id : ℕ) (rows : List Sms) (m : Sms)
      → IsKeyed rows
      → All (Sound max) rows
      → (claim_one config worker now id rows).0 ≡ some m
      → Triable max m
  unfolding claim_one Sound Triable
  claim_one-Triable config worker now id rows m key h e =
      let busy = claim_one-processing config worker now id rows m key e in
      let after = claim_one-Sound config worker now id rows h in
      elim (Bool-cases (count (λ m. m.id == id && is_due now m) rows == 1)) [
        | inr other ↦ absurd (let k = rw (claim_one, other) at e in ground arith)
        | inl one ↦
            let s = All-find (Sound max) (λ m. m.id == id) _ m after (rw (claim_one, one) at e) in
            (s.0, s.2 (ground arith))
      ]

  claim_rows-Sound :
      (config : SmsConfig) (worker : Text) (now : ℕ) (ids : List ℕ) (rows : List Sms)
      → IsKeyed rows
      → All (Sound max) rows
      → All (Sound max) (claim_rows config worker now ids rows).1
        × All (Triable max) (claim_rows config worker now ids rows).0
  unfolding claim_rows
  claim_rows-Sound config worker now [] rows key h = (h, tt)
  claim_rows-Sound config worker now (id ∷ ids) rows key h =
      let after = (claim_one config worker now id rows).1 in
      let (last, claimed) =
        claim_rows-Sound config worker now ids after
          (claim_one-IsKeyed config worker now id rows key)
          (claim_one-Sound config worker now id rows h) in
      (
        last,
        pushed-All (Triable max) (claim_one config worker now id rows).0
            (claim_rows config worker now ids after).0
            (λ m e. claim_one-Triable config worker now id rows m key h e) claimed,
      )

  send_failed-Sound :
      (d : Delivery) (row : Sms) (kind : FailureKind) (code : Text) (now : Clock) (m : Sms)
      → Triable max row
      → Sound max m
      → Sound max (send_failed d row kind code now m)
  unfolding Sound Triable send_failed mark_failed mark_retry
  send_failed-Sound d row FailureKind.ambiguous code now m r h = ground arith
  send_failed-Sound d row FailureKind.permanent code now m r h = ground arith
  send_failed-Sound d row FailureKind.retryable code now m r h = ground arith

  answered-Sound :
      (d : Delivery) (row : Sms) (answer : SendAnswer) (now : Clock) (m : Sms)
      → Triable max row
      → Sound max m
      → Sound max (answered d row answer now m)
  unfolding Sound Triable answered mark_sent
  answered-Sound d row (SendAnswer.accepted x) now m r h = ground arith
  answered-Sound d row (SendAnswer.confirmed x) now m r h = ground arith
  answered-Sound d row (SendAnswer.refused kind code) now m r h =
      send_failed-Sound d row kind code now m r h
  answered-Sound d row SendAnswer.crashed now m r h =
      send_failed-Sound d row FailureKind.retryable _ now m r h

  delivery_write-Sound :
      (d : Delivery) (row : Sms) (now : Clock) (m : Sms)
      → Triable max row
      → Sound max m
      → Sound max (delivery_write d row now m)
  unfolding delivery_write Sound Triable mark_failed
  delivery_write-Sound d row now m r h = elim (Bool-cases (is_late now row)) [
    | inl late ↦ rw (delivery_write, late) (h.0, h.1, λ e. absurd (ground arith))
    | inr early ↦ elim (Option-cases (opened d row)) [
      | inl e ↦ rw (delivery_write, early, e) (ground arith)
      | inr (message, e) ↦ rw (delivery_write, early, e) (answered-Sound d row d.answer now m r h)
    ]
  ]

  send_failed_id :
      (d : Delivery) (row : Sms) (kind : FailureKind) (code : Text) (now : Clock) (m : Sms)
      → (send_failed d row kind code now m).id ≡ m.id
  unfolding send_failed mark_failed mark_retry
  send_failed_id d row FailureKind.ambiguous code now m = refl
  send_failed_id d row FailureKind.permanent code now m = refl
  send_failed_id d row FailureKind.retryable code now m = ground arith

  answered_id :
      (d : Delivery) (row : Sms) (answer : SendAnswer) (now : Clock) (m : Sms)
      → (answered d row answer now m).id ≡ m.id
  unfolding answered mark_sent
  answered_id d row (SendAnswer.accepted x) now m = refl
  answered_id d row (SendAnswer.confirmed x) now m = refl
  answered_id d row (SendAnswer.refused kind code) now m = send_failed_id d row kind code now m
  answered_id d row SendAnswer.crashed now m = send_failed_id d row FailureKind.retryable _ now m

  delivery_write_id :
      (d : Delivery) (row : Sms) (now : Clock) (m : Sms) → (delivery_write d row now m).id ≡ m.id
  unfolding delivery_write mark_failed
  delivery_write_id d row now m = ground (arith, answered_id d row d.answer now m)

  deliver-Sound :
      (d : Delivery) (row : Sms) (now : Clock) (rows : List Sms)
      → Triable max row
      → IsKeyed rows × All (Sound max) rows
      → IsKeyed (deliver d row now rows) × All (Sound max) (deliver d row now rows)
  unfolding deliver IsKeyed
  deliver-Sound d row now rows r (key, h) = (
    λ i.
        rw
          (count-update_same (λ m. m.id == i) (λ m. m.id == row.id) (delivery_write d row now) rows
            (λ m. ap (λ k. k == i) (delivery_write_id d row now m)))
          (key i),
    All-update (Sound max) (λ m. m.id == row.id) (delivery_write d row now) rows
        (λ m s. delivery_write-Sound d row now m r s) h,
  )

  recover-Sound :
      (now : ℕ) (rows : List Sms)
      → IsKeyed rows × All (Sound max) rows
      → IsKeyed (recover_stale_leases now rows) × All (Sound max) (recover_stale_leases now rows)
  unfolding recover_stale_leases IsKeyed Sound is_stale
  recover-Sound now rows (key, h) =
      let w : Sms → Sms = λ m. record m { status = SmsStatus.retry; lease_owner = none } in
      (
        λ i. rw (count-update_same (λ m. m.id == i) (is_stale now) w rows (λ m. refl)) (key i),
        All-update_hits (Sound max) (is_stale now) w rows
            (λ m hit s. (s.0, s.1, λ e. s.2 (ground arith))) h,
      )

  -- In every course of the outbox, with any number of workers, stale leases, lost races and answers of
  -- the provider, no message counts more attempts than the maximum, one that is not final counts
  -- fewer, and so does every row that a worker holds. The maximum is positive and the ids are a key.
  pub Runs-AllSound :
      (start o : Outboxes) → 0 < max → AllSound max start → Runs max start o → AllSound max o
  unfolding AllSound claim
  Runs-AllSound start o pos h begins = h
  Runs-AllSound start o pos h (enqueues cipher config id input now after same unused e r) =
      let (key, (rows, held)) = Runs-AllSound start _ pos h r in
      let (k, s) = enqueue-Sound cipher config id input now _ after pos same unused e key rows in
      (k, (s, held))
  Runs-AllSound start o pos h (recovers now r) =
      let (key, (rows, held)) = Runs-AllSound start _ pos h r in
      let (k, s) = recover-Sound now _ (key, rows) in (k, (s, held))
  Runs-AllSound start o pos h (claims {o = x} config worker limit now before r) =
      let (key, (rows, held)) = Runs-AllSound start _ pos h r in
      let ids = candidates limit now before in
      let (s, k) = claim_rows-Sound config worker now ids x.rows key rows in
      (
        claim_rows-IsKeyed config worker now ids x.rows key,
        (s, All-append (Triable max) x.in_hand _ held k),
      )
  Runs-AllSound start o pos h (delivers {o = x} d now row xs ys e r) =
      let (key, (rows, held)) = Runs-AllSound start _ pos h r in
      let (row_ok, rest) = All-without (Triable max) row xs ys (subst (All (Triable max)) e held) in
      let (k, s) = deliver-Sound d row now x.rows row_ok (key, rows) in (k, (s, rest))
