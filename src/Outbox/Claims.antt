-- ===== src/Outbox/Claims.antt =====
-- Two workers of sms.worker.ts never claim one message at a time.
use easygas_guide_server.Common.{
  ℕ, ◌≤◌, true, false, ◌&&◌, Option, none, some, List, [], ◌∷◌, ◌≡◌, refl, arith, inl, inr, ◌==◌,
  count, update, Text, Bool-cases, count-update_same, count-eq-All, All-count-zero, All-update, All,
  find-true, All-find, sym, ◌∙◌, subst, ==-eq, &&-true,
}
use easygas_guide_server.Outbox.{
  Sms, SmsConfig, is_queued, is_processing, is_due, claim_write, claim_one, claim_rows, claim,
  candidates, pushed,
}

-- No row of the id is queued.
unfoldable pub Held : ℕ → List Sms → Type 0
Held id rows = All (λ m. (m.id == id) ≡ true → is_queued m.status ≡ false) rows

-- `id` is the primary key.
unfoldable pub IsKeyed : List Sms → Type 0
IsKeyed rows = (id : ℕ) → count (λ m. m.id == id) rows ≤ 1

pub pushed-All {ℓ} :
    (P : Sms → Type ℓ) (row : Option Sms) (claimed : List Sms)
    → ((m : Sms) → row ≡ some m → P m)
    → All P claimed
    → All P (pushed row claimed)
pushed-All P none claimed h k = k
pushed-All P (some m) claimed h k = (h m refl, k)

module _ (config : SmsConfig) (worker : Text) (now : ℕ) where
  pub claim_one-IsKeyed :
      (id : ℕ) (rows : List Sms) → IsKeyed rows → IsKeyed (claim_one config worker now id rows).1
  unfolding IsKeyed claim_one claim_write
  claim_one-IsKeyed id rows key i =
      rw
        (count-update_same (λ m. m.id == i) (λ m. m.id == id && is_due now m)
          (claim_write config worker now) rows (λ m. refl))
        (key i)

  claim_one-keeps :
      (id i : ℕ) (rows : List Sms) → Held i rows → Held i (claim_one config worker now id rows).1
  unfolding Held claim_one claim_write
  claim_one-keeps id i rows h =
      All-update (λ m. (m.id == i) ≡ true → is_queued m.status ≡ false)
        (λ m. m.id == id && is_due now m) (claim_write config worker now) rows (λ m k e. refl) h

  Held-none_due :
      (i : ℕ) (rows : List Sms) → Held i rows → All (λ m. (m.id == i && is_due now m) ≡ false) rows
  unfolding Held is_due
  Held-none_due i [] h = tt
  Held-none_due i (m ∷ rows) (h, hs) = (ground (arith, h), Held-none_due i rows hs)

  -- Nothing of a held id is handed out.
  Held-none :
      (id : ℕ) (rows : List Sms) → Held id rows → (claim_one config worker now id rows).0 ≡ none
  unfolding claim_one
  Held-none id rows h =
      rw (All-count-zero (λ m. m.id == id && is_due now m) rows (Held-none_due id rows h)) refl

  Held-from :
      (id : ℕ) (rows : List Sms)
      → All (λ m. (m.id == id) ≡ true → (m.id == id && is_due now m) ≡ true) rows
      → Held id (update (λ m. m.id == id && is_due now m) (claim_write config worker now) rows)
  unfolding Held update claim_write
  Held-from id [] h = tt
  Held-from id (m ∷ rows) (h, hs) = (λ e. ground (arith, h), Held-from id rows hs)

  -- The row that is handed out is held.
  claim_one-Held :
      (id : ℕ) (rows : List Sms) (m : Sms)
      → IsKeyed rows
      → (claim_one config worker now id rows).0 ≡ some m
      → (m.id ≡ id) × Held id (claim_one config worker now id rows).1
  unfolding claim_one IsKeyed
  claim_one-Held id rows m key e =
      elim (Bool-cases (count (λ m. m.id == id && is_due now m) rows == 1)) [
        | inr other ↦ absurd (let k = rw (claim_one, other) at e in ground arith)
        | inl one ↦
            let found = rw (claim_one, one) at e in
            (
              ==-eq m.id id (find-true (λ m. m.id == id) _ m found),
              Held-from id rows (
                  count-eq-All (λ m. m.id == id && is_due now m) (λ m. m.id == id) rows
                    (λ x k. (&&-true _ _ k).0) (ground (arith, one, key id))),
            )
      ]

  claimed_processing :
      (id : ℕ) (rows : List Sms)
      → All (λ m. (m.id == id) ≡ true → (m.id == id && is_due now m) ≡ true) rows
      → All
          (λ m. (m.id == id) ≡ true → is_processing m.status ≡ true)
          (update (λ m. m.id == id && is_due now m) (claim_write config worker now) rows)
  unfolding update claim_write
  claimed_processing id [] h = tt
  claimed_processing id (m ∷ rows) (h, hs) = (λ e. ground (arith, h), claimed_processing id rows hs)

  -- The row that is handed out is in processing.
  pub claim_one-processing :
      (id : ℕ) (rows : List Sms) (m : Sms)
      → IsKeyed rows
      → (claim_one config worker now id rows).0 ≡ some m
      → is_processing m.status ≡ true
  unfolding claim_one IsKeyed
  claim_one-processing id rows m key e =
      elim (Bool-cases (count (λ m. m.id == id && is_due now m) rows == 1)) [
        | inr other ↦ absurd (let k = rw (claim_one, other) at e in ground arith)
        | inl one ↦
            let found = rw (claim_one, one) at e in
            All-find (λ m. (m.id == id) ≡ true → is_processing m.status ≡ true) (λ m. m.id == id) _
              m
              (claimed_processing id rows (
                count-eq-All (λ m. m.id == id && is_due now m) (λ m. m.id == id) rows
                  (λ x k. (&&-true _ _ k).0) (ground (arith, one, key id))))
              found (find-true (λ m. m.id == id) _ m found)
      ]

  claim_one-refuses :
      (id i : ℕ) (rows : List Sms) (m : Sms)
      → IsKeyed rows
      → Held i rows
      → (claim_one config worker now id rows).0 ≡ some m
      → (m.id == i) ≡ false
  claim_one-refuses id i rows m key h e = elim (Bool-cases (m.id == i)) [
    | inr differs ↦ differs
    | inl same ↦
        let id_i : i ≡ id = sym (==-eq m.id i same) ∙ (claim_one-Held id rows m key e).0 in
        absurd (ground (arith, e, Held-none id rows (subst (λ k. Held k rows) id_i h)))
  ]

  -- Rows that are held before a claim stay held, and the claim hands none of them out.
  claim_rows-keeps :
      (i : ℕ) (ids : List ℕ) (rows : List Sms)
      → IsKeyed rows
      → Held i rows
      → Held i (claim_rows config worker now ids rows).1
        × All (λ m. (m.id == i) ≡ false) (claim_rows config worker now ids rows).0
  unfolding claim_rows
  claim_rows-keeps i [] rows key h = (h, tt)
  claim_rows-keeps i (id ∷ ids) rows key h =
      let after = (claim_one config worker now id rows).1 in
      let rest =
        claim_rows-keeps i ids after (claim_one-IsKeyed id rows key)
          (claim_one-keeps id i rows h) in
      (
        rest.0,
        pushed-All (λ m. (m.id == i) ≡ false) (claim_one config worker now id rows).0
            (claim_rows config worker now ids after).0
            (λ m e. claim_one-refuses id i rows m key h e) rest.1,
      )

  -- What a claim hands out is held after it.
  claim_rows-Held :
      (ids : List ℕ) (rows : List Sms)
      → IsKeyed rows
      → All
          (λ m. Held m.id (claim_rows config worker now ids rows).1)
          (claim_rows config worker now ids rows).0
  unfolding claim_rows
  claim_rows-Held [] rows key = tt
  claim_rows-Held (id ∷ ids) rows key =
      let after = (claim_one config worker now id rows).1 in
      let last = (claim_rows config worker now ids after).1 in
      pushed-All (λ m. Held m.id last) (claim_one config worker now id rows).0
        (claim_rows config worker now ids after).0 (λ m e. first m e)
        (claim_rows-Held ids after (claim_one-IsKeyed id rows key))
    where
      first :
          (m : Sms)
          → (claim_one config worker now id rows).0 ≡ some m
          → Held m.id (claim_rows config worker now ids (claim_one config worker now id rows).1).1
      first m e =
          let (same, held) = claim_one-Held id rows m key e in
          let after = (claim_one config worker now id rows).1 in
          subst (λ k. Held k (claim_rows config worker now ids after).1) (sym same)
            (claim_rows-keeps id ids after (claim_one-IsKeyed id rows key) held).0

  pub claim_rows-IsKeyed :
      (ids : List ℕ) (rows : List Sms)
      → IsKeyed rows
      → IsKeyed (claim_rows config worker now ids rows).1
  unfolding claim_rows
  claim_rows-IsKeyed [] rows key = key
  claim_rows-IsKeyed (id ∷ ids) rows key =
      claim_rows-IsKeyed ids (claim_one config worker now id rows).1 (claim_one-IsKeyed id rows key)

none_shared :
    (config : SmsConfig) (worker : Text) (now : ℕ) (ids : List ℕ) (rows : List Sms)
    (claimed : List Sms)
    → IsKeyed rows
    → All (λ m. Held m.id rows) claimed
    → All (λ m. All (λ x. (x.id == m.id) ≡ false) (claim_rows config worker now ids rows).0) claimed
none_shared config worker now ids rows [] key h = tt
none_shared config worker now ids rows (m ∷ claimed) key (h, hs) = (
  (claim_rows-keeps config worker now m.id ids rows key h).1,
  none_shared config worker now ids rows claimed key hs,
)

-- Two workers that claim one after the other, whatever candidates each of them read, share no message:
-- no id that the second is handed is an id of the first.
pub claim-exclusive :
    (config : SmsConfig) (first second : Text) (limit t u : ℕ) (before before' rows : List Sms)
    → IsKeyed rows
    → All
        (λ m.
          All
            (λ x. (x.id == m.id) ≡ false)
            (claim config second limit u before' (claim config first limit t before rows).1).0)
        (claim config first limit t before rows).0
unfolding claim
claim-exclusive config first second limit t u before before' rows key =
    none_shared config second u (candidates limit u before')
      (claim_rows config first t (candidates limit t before) rows).1
      (claim_rows config first t (candidates limit t before) rows).0
      (claim_rows-IsKeyed config first t (candidates limit t before) rows key)
      (claim_rows-Held config first t (candidates limit t before) rows key)
