-- ===== src/AuditChain/Check.antt =====
-- The inner loop of `verifyChain` of audit-verify.ts, and the order of the rows that it reads.
use easygas_guide_server.Common.{
  ℕ, ◌+◌, ◌<◌, Bool, true, false, none, List, [], ◌∷◌, ◌++◌, ◌≡◌, refl, arith, inl, inr, length,
  filter, Text, text_eq, text_eq-eq, All, Option-cases,
}
use easygas_guide_server.AuditChain.{
  Hash, AuditRow, Cursor, Checked, ChainError, row_error, advance, check_rows, row_fields,
  compute_entry_hash,
}

module _ (sha256 : Hash) (chain_id : Text) where
  -- What checks without error.
  pub row_error-seq :
      (r : AuditRow) (c : Cursor)
      → row_error sha256 chain_id r c ≡ none
      → (r.chain_seq ≡ c.expected_seq) × (text_eq r.prev_hash c.expected_prev ≡ true)
  unfolding row_error
  row_error-seq r c h = ground arith

  hash_ok :
      (r : AuditRow) (c : Cursor)
      → row_error sha256 chain_id r c ≡ none
      → text_eq (compute_entry_hash sha256 (row_fields chain_id r)) r.entry_hash ≡ true
  unfolding row_error
  hash_ok r c h = ground arith

  pub row_error-none :
      (r : AuditRow) (c : Cursor)
      → r.chain_seq ≡ c.expected_seq
      → text_eq r.prev_hash c.expected_prev ≡ true
      → text_eq (compute_entry_hash sha256 (row_fields chain_id r)) r.entry_hash ≡ true
      → row_error sha256 chain_id r c ≡ none
  unfolding row_error
  row_error-none r c seq prev hash = rw (row_error, seq, prev, hash) (ground arith)

  pub row_error-hash :
      (r : AuditRow) (c : Cursor)
      → row_error sha256 chain_id r c ≡ none
      → compute_entry_hash sha256 (row_fields chain_id r) ≡ r.entry_hash
  row_error-hash r c h =
      text_eq-eq (compute_entry_hash sha256 (row_fields chain_id r)) r.entry_hash (hash_ok r c h)

  pub check_rows-cons :
      (r : AuditRow) (rs : List AuditRow) (c d : Cursor)
      → check_rows sha256 chain_id (r ∷ rs) c ≡ Checked.intact d
      → (row_error sha256 chain_id r c ≡ none)
        × (check_rows sha256 chain_id rs (advance r c) ≡ Checked.intact d)
  unfolding check_rows
  check_rows-cons r rs c d h = elim (Option-cases (row_error sha256 chain_id r c)) [
    | inl e ↦ (e, rw (check_rows, e) at h)
    | inr (x, e) ↦ absurd (let k = rw (check_rows, e) at h in ground arith)
  ]

  pub check_rows-one :
      (r : AuditRow) (c : Cursor)
      → row_error sha256 chain_id r c ≡ none
      → check_rows sha256 chain_id (r ∷ []) c ≡ Checked.intact (advance r c)
  unfolding check_rows
  check_rows-one r c h = rw (check_rows, h) refl

  -- A check of two parts is a check of the first and then of the second.
  pub check_rows-append :
      (rs ts : List AuditRow) (c d : Cursor)
      → check_rows sha256 chain_id rs c ≡ Checked.intact d
      → check_rows sha256 chain_id (rs ++ ts) c ≡ check_rows sha256 chain_id ts d
  unfolding check_rows
  check_rows-append [] ts c d h = ground arith
  check_rows-append (r ∷ rs) ts c d h =
      let (e, k) = check_rows-cons r rs c d h in
      rw (check_rows, e) (check_rows-append rs ts (advance r c) d k)

  pub check_rows-broken :
      (rs ts : List AuditRow) (c : Cursor) (n : ℕ) (e : ChainError)
      → check_rows sha256 chain_id rs c ≡ Checked.broken n e
      → check_rows sha256 chain_id (rs ++ ts) c ≡ Checked.broken n e
  unfolding check_rows
  check_rows-broken [] ts c n e h = ground arith
  check_rows-broken (r ∷ rs) ts c n e h = elim (Option-cases (row_error sha256 chain_id r c)) [
    | inl k ↦
        rw (check_rows, k) (check_rows-broken rs ts (advance r c) n e (rw (check_rows, k) at h))
    | inr (x, k) ↦ rw (check_rows, k) (rw (check_rows, k) at h)
  ]

  -- The rows of an intact chain are numbered from the first expected number on.
  pub check_rows-bound :
      (rs : List AuditRow) (c d : Cursor)
      → check_rows sha256 chain_id rs c ≡ Checked.intact d
      → All (λ r. r.chain_seq < d.expected_seq) rs
        × (c.expected_seq + length rs ≡ d.expected_seq)
        × (c.entries + length rs ≡ d.entries)
  unfolding check_rows advance
  check_rows-bound [] c d h = (tt, ground arith, ground arith)
  check_rows-bound (r ∷ rs) c d h =
      let (e, k) = check_rows-cons r rs c d h in
      let (all, n, m) = check_rows-bound rs (advance r c) d k in
      let (s, _) = row_error-seq r c e in ((ground arith, all), ground arith, ground arith)

pub filter-append :
    (p : AuditRow → Bool) (xs ys : List AuditRow) → filter p (xs ++ ys) ≡ filter p xs ++ filter p ys
unfolding filter
filter-append p [] ys = refl
filter-append p (x ∷ xs) ys = ground (arith, filter-append p xs ys)

pub filter-skip :
    (p : AuditRow → Bool) (xs : List AuditRow) (y : AuditRow)
    → p y ≡ false
    → filter p (xs ++ y ∷ []) ≡ filter p xs
unfolding filter
filter-skip p [] y h = ground arith
filter-skip p (x ∷ xs) y h = ground (arith, filter-skip p xs y h)
