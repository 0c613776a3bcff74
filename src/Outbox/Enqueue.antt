-- ===== src/Outbox/Enqueue.antt =====
-- What `enqueueOtpSms` leaves queued, and what the worker sends of it.
use easygas_guide_server.Common.{
  ℕ, ◌+◌, ◌≤◌, ◌<◌, Bool, true, false, ◌&&◌, some, List, [], ◌∷◌, ◌++◌, ◌≡◌, ◌≢◌, ◌⊎◌, refl, arith,
  inl, inr, subst, Bool-cases, ◌==◌, find, count, update, Text, text, text_eq, text_eq_refl,
  text_eq-eq, Option-cases, count-append, count-update_none, count-update_hits, count-zero-find,
  find-append_none, update-append, count-update_same, count-mono, ==-refl, sym, ap, ◌∙◌, ◌*◌,
  some-eq,
}
use easygas_guide_server.Sessions.{Clock}
use easygas_guide_server.Phone.{normalize_phone}
use easygas_guide_server.Outbox.{
  Sms, SmsStatus, SmsConfig, Cipher, EnqueueInput, Delivery, otp, sms_aad, is_queued, is_queued_otp,
  cancel_superseded, queued_otp, enqueue_otp_sms, is_due, claim_write, claim_one, sent_text,
}

pub enqueue_some :
    (cipher : Cipher) (config : SmsConfig) (id : ℕ) (input : EnqueueInput) (now : Clock)
    (rows after : List Sms)
    → enqueue_otp_sms cipher config id input now rows ≡ some after
    → (recipient : Text) × (normalize_phone input.phone ≡ some recipient)
      × (after
          ≡ cancel_superseded recipient rows
            ++ queued_otp cipher config id input recipient now ∷ [])
unfolding enqueue_otp_sms
enqueue_some cipher config id input now rows after h =
    elim (Option-cases (normalize_phone input.phone)) [
      | inl e ↦ absurd (let k = rw (enqueue_otp_sms, e) at h in ground arith)
      | inr (recipient, e) ↦ (recipient, e, sym (some-eq _ _ _ (rw (enqueue_otp_sms, e) refl) h))
    ]

text_eq_other : (a b c : Text) → text_eq b c ≡ false → text_eq a b ≡ true → text_eq a c ≡ false
text_eq_other a b c h k = rw (text_eq-eq a b k) h

other_kept :
    (recipient other : Text) (m : Sms)
    → text_eq recipient other ≡ false
    → is_queued_otp recipient m ≡ true
    → is_queued_otp other
        (record m { status = SmsStatus.cancelled; last_error = some (text "SUPERSEDED") })
      ≡ is_queued_otp other m
unfolding is_queued_otp text
other_kept recipient other m h k = ground (arith, text_eq_other m.recipient recipient other h)

abbrev after_queue : Cipher → SmsConfig → ℕ → EnqueueInput → Text → Clock → List Sms → List Sms
after_queue cipher config id input recipient now rows =
    cancel_superseded recipient rows ++ queued_otp cipher config id input recipient now ∷ []

module _ (cipher : Cipher) (config : SmsConfig) (id : ℕ) (input : EnqueueInput) (recipient : Text)
    (now : Clock) (rows : List Sms) where
  queued_one :
      count (is_queued_otp recipient) (after_queue cipher config id input recipient now rows) ≡ 1
  unfolding cancel_superseded count is_queued_otp queued_otp text text_eq
  queued_one =
      let gone =
        count-update_none (is_queued_otp recipient)
          (λ m. record m { status = SmsStatus.cancelled; last_error = some (text "SUPERSEDED") })
          rows (λ m. ground arith) in
      count-append (is_queued_otp recipient) (cancel_superseded recipient rows)
        (queued_otp cipher config id input recipient now ∷ [])
      ∙ rw (gone, text_eq_refl recipient) refl

  queued_others :
      (other : Text)
      → text_eq recipient other ≡ false
      → count (is_queued_otp other) (after_queue cipher config id input recipient now rows)
        ≡ count (is_queued_otp other) rows
  unfolding cancel_superseded count is_queued_otp queued_otp
  queued_others other k =
      let same =
        count-update_hits (is_queued_otp other) (is_queued_otp recipient)
          (λ m. record m { status = SmsStatus.cancelled; last_error = some (text "SUPERSEDED") })
          rows (λ m hit. other_kept recipient other m k hit) in
      count-append (is_queued_otp other) (cancel_superseded recipient rows)
        (queued_otp cipher config id input recipient now ∷ [])
      ∙ rw (same, k) (ground arith)

-- The table row by row: a one-time password of the recipient that waits is cancelled, every other
-- row is as it was, and the new row stands at the end.
pub data Superseded (recipient : Text) (new : Sms) : List Sms → List Sms → Type 0 where
  queues : Superseded recipient new [] (new ∷ [])
  cancels :
      (m : Sms) (ms ns : List Sms)
      → text_eq m.recipient recipient ≡ true
      → text_eq m.kind otp ≡ true
      → (m.status ≡ SmsStatus.pending) ⊎ (m.status ≡ SmsStatus.retry)
      → Superseded recipient new ms ns
      → Superseded recipient new
          (m ∷ ms)
          (record m { status = SmsStatus.cancelled; last_error = some (text "SUPERSEDED") } ∷ ns)
  keeps :
      (m : Sms) (ms ns : List Sms)
      → (text_eq m.recipient recipient ≡ false)
        ⊎ ((text_eq m.kind otp ≡ false)
            ⊎ (m.status ≢ SmsStatus.pending) × (m.status ≢ SmsStatus.retry))
      → Superseded recipient new ms ns
      → Superseded recipient new (m ∷ ms) (m ∷ ns)

is_queued-cases :
    (s : SmsStatus) → is_queued s ≡ true → (s ≡ SmsStatus.pending) ⊎ (s ≡ SmsStatus.retry)
is_queued-cases SmsStatus.pending h = inl refl
is_queued-cases SmsStatus.retry h = inr refl
is_queued-cases SmsStatus.processing h = absurd (ground arith)
is_queued-cases SmsStatus.sent h = absurd (ground arith)
is_queued-cases SmsStatus.delivered h = absurd (ground arith)
is_queued-cases SmsStatus.failed h = absurd (ground arith)
is_queued-cases SmsStatus.cancelled h = absurd (ground arith)

is_queued-other :
    (s : SmsStatus) → is_queued s ≡ false → (s ≢ SmsStatus.pending) × (s ≢ SmsStatus.retry)
is_queued-other s h = (
  λ e. absurd (let k = subst (λ t. is_queued t ≡ false) e h in ground arith),
  λ e. absurd (let k = subst (λ t. is_queued t ≡ false) e h in ground arith),
)

cancel_superseded-Superseded :
    (recipient : Text) (new : Sms) (rows : List Sms)
    → Superseded recipient new rows (cancel_superseded recipient rows ++ new ∷ [])
unfolding cancel_superseded update is_queued_otp
cancel_superseded-Superseded recipient new [] = queues
cancel_superseded-Superseded recipient new (m ∷ rows) =
    let rest = cancel_superseded-Superseded recipient new rows in
    elim (Bool-cases (text_eq m.recipient recipient)) [
      | inr other ↦ rw other (keeps m rows _ (inl other) rest)
      | inl same ↦ elim (Bool-cases (text_eq m.kind otp)) [
        | inr other ↦ rw (same, other) (keeps m rows _ (inr (inl other)) rest)
        | inl kind ↦ elim (Bool-cases (is_queued m.status)) [
          | inr done ↦
              rw (same, kind, done)
                (keeps m rows _ (inr (inr (is_queued-other m.status done))) rest)
          | inl queued ↦
              rw (same, kind, queued)
                (cancels m rows _ same kind (is_queued-cases m.status queued) rest)
        ]
      ]
    ]

-- Queueing a one-time password cancels those that waited for its recipient, PENDING or RETRY, leaves
-- every other row of the table as it was, adds the new row, and leaves exactly one queued for the
-- recipient. What is queued for any other recipient stays queued.
pub enqueue_otp_sms-one :
    (cipher : Cipher) (config : SmsConfig) (id : ℕ) (input : EnqueueInput) (now : Clock)
    (rows after : List Sms)
    → enqueue_otp_sms cipher config id input now rows ≡ some after
    → (recipient : Text) × (normalize_phone input.phone ≡ some recipient)
      × Superseded recipient (queued_otp cipher config id input recipient now) rows after
      × (count (is_queued_otp recipient) after ≡ 1)
      × ((other : Text)
          → text_eq recipient other ≡ false
          → count (is_queued_otp other) after ≡ count (is_queued_otp other) rows)
enqueue_otp_sms-one cipher config id input now rows after h =
    let (recipient, e, shape) = enqueue_some cipher config id input now rows after h in
    let new = queued_otp cipher config id input recipient now in
    (
      recipient,
      e,
      subst (Superseded recipient new rows) (sym shape)
          (cancel_superseded-Superseded recipient new rows),
      ap (count (is_queued_otp recipient)) shape
          ∙ queued_one cipher config id input recipient now rows,
      λ other k.
          ap (count (is_queued_otp other)) shape
          ∙ queued_others cipher config id input recipient now rows other k,
    )

module _ (config : SmsConfig) (worker : Text) (at id : ℕ) (old : List Sms) (new : Sms)
    (unused : count (λ m. m.id == id) old ≡ 0) (same : (new.id == id) ≡ true)
    (due : is_due at new ≡ true) where
  last_due : count (λ m. m.id == id && is_due at m) (old ++ new ∷ []) ≡ 1
  unfolding count
  last_due =
      let total = count-append (λ m. m.id == id && is_due at m) old (new ∷ []) in
      let le =
        count-mono (λ m. m.id == id && is_due at m) (λ m. m.id == id) old (λ m e. ground arith) in
      ground (arith, unused, same, due, total, le)

  last_found :
      find
        (λ m. m.id == id)
        (update (λ m. m.id == id && is_due at m) (claim_write config worker at) (old ++ new ∷ []))
      ≡ some (claim_write config worker at new)
  unfolding find update claim_write
  last_found =
      let p : Sms → Bool = λ m. m.id == id && is_due at m in
      let before = update p (claim_write config worker at) old in
      let ids =
        count-update_same (λ (m : Sms). m.id == id) p (claim_write config worker at) old (λ m. refl)
        ∙ unused in
      ap (find (λ m. m.id == id)) (update-append p (claim_write config worker at) old (new ∷ []))
      ∙ find-append_none (λ m. m.id == id) before
          (update p (claim_write config worker at) (new ∷ []))
          (count-zero-find (λ m. m.id == id) before ids)
      ∙ rw (same, due) (rw same refl)

  claim_last :
      (claim_one config worker at id (old ++ new ∷ [])).0 ≡ some (claim_write config worker at new)
  unfolding claim_one
  claim_last = rw last_due last_found

-- A one-time password that is queued is what the worker sends: the claim of its row, once it is due,
-- hands that row out, and its delivery before `not_after` passes the recipient and the message to the
-- provider. Decryption undoes encryption under the same additional data, and the row's id is new.
pub enqueue_otp_sms-sent :
    (d : Delivery) (config : SmsConfig) (id : ℕ) (input : EnqueueInput) (worker : Text)
    (now : Clock) (at : ℕ) (later : Clock) (rows after : List Sms)
    → ((message aad : Text) → d.cipher.decrypt (d.cipher.encrypt message aad) aad ≡ some message)
    → count (λ m. m.id == id) rows ≡ 0
    → now.db ≤ at
    → later.js < now.js + config.max_age_seconds * 1000
    → enqueue_otp_sms d.cipher config id input now rows ≡ some after
    → (recipient : Text) × (row : Sms) × (normalize_phone input.phone ≡ some recipient)
      × ((claim_one config worker at id after).0 ≡ some row)
      × (sent_text d row later ≡ some (recipient, input.message))
unfolding cancel_superseded queued_otp claim_write is_due sent_text
enqueue_otp_sms-sent d config id input worker now at later rows after inverse unused due fresh h =
    let (recipient, e, shape) = enqueue_some d.cipher config id input now rows after h in
    let new = queued_otp d.cipher config id input recipient now in
    let row = claim_write config worker at new in
    let ids =
      count-update_same (λ (m : Sms). m.id == id) (is_queued_otp recipient)
        (λ m. record m { status = SmsStatus.cancelled; last_error = some (text "SUPERSEDED") }) rows
        (λ m. refl)
      ∙ unused in
    (
      recipient,
      row,
      e,
      ap (λ xs. (claim_one config worker at id xs).0) shape
          ∙ claim_last config worker at id (cancel_superseded recipient rows) new ids (==-refl id)
              (ground (arith, due)),
      ground (arith, fresh, inverse input.message (sms_aad d.cipher otp recipient)),
    )
