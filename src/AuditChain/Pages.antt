-- ===== src/AuditChain/Pages.antt =====
-- The pages of `verifyChain` of audit-verify.ts against one pass over the whole chain.
use easygas_guide_server.Common.{
  ℕ, zero, suc, ◌+◌, ◌≤◌, ◌<◌, Bool, true, false, ◌&&◌, some, List, [], ◌∷◌, ◌++◌, ◌≡◌, ◌⊎◌, refl,
  arith, inl, inr, ◌==◌, ltb, length, filter, sort_on, sort_on-filter, Text, All, All-imp,
  Bool-cases, ap, sym, ◌∙◌, subst,
}
use easygas_guide_server.AuditChain.{
  Hash, AuditRow, Cursor, Checked, ChainError, check_rows, in_chain, take_rows, page, last_seq,
  verify_from, verify_chain, start, advance,
}
use easygas_guide_server.AuditChain.Check.{
  check_rows-cons, row_error-seq, check_rows-append, check_rows-broken, check_rows-bound,
}
use easygas_guide_server.AuditChain.Append.{chain_rows}

-- The numbers rise strictly.
unfoldable pub IsAscending : List AuditRow → Type 0
IsAscending [] = Unit
IsAscending (r ∷ rs) = All (λ x. r.chain_seq < x.chain_seq) rs × IsAscending rs

drop_rows : ℕ → List AuditRow → List AuditRow
drop_rows zero rs = rs
drop_rows (suc n) [] = []
drop_rows (suc n) (r ∷ rs) = drop_rows n rs

take-drop : (n : ℕ) (rs : List AuditRow) → take_rows n rs ++ drop_rows n rs ≡ rs
unfolding take_rows drop_rows
take-drop zero rs = refl
take-drop (suc n) [] = refl
take-drop (suc n) (r ∷ rs) = ap (λ xs. r ∷ xs) (take-drop n rs)

take_all : (n : ℕ) (rs : List AuditRow) → length (take_rows n rs) < n → take_rows n rs ≡ rs
unfolding take_rows
take_all zero rs h = absurd (ground arith)
take_all (suc n) [] h = refl
take_all (suc n) (r ∷ rs) h = ap (λ xs. r ∷ xs) (take_all n rs (ground arith))

IsAscending-after : (xs ys : List AuditRow) → IsAscending (xs ++ ys) → IsAscending ys
unfolding IsAscending
IsAscending-after [] ys h = h
IsAscending-after (x ∷ xs) ys h = IsAscending-after xs ys h.1

All-after {ℓ} : (P : AuditRow → Type ℓ) (xs ys : List AuditRow) → All P (xs ++ ys) → All P ys
All-after P [] ys h = h
All-after P (x ∷ xs) ys h = All-after P xs ys h.1

-- What follows a page has larger numbers than its last row.
after_last :
    (after : ℕ) (xs ys : List AuditRow)
    → All (λ x. after < x.chain_seq) (xs ++ ys)
    → IsAscending (xs ++ ys)
    → All (λ x. last_seq after xs < x.chain_seq) ys
unfolding IsAscending last_seq
after_last after [] ys h a = h
after_last after (x ∷ xs) ys h a = after_last x.chain_seq xs ys a.0 a.1

filter_below :
    (p : AuditRow → Bool) (xs ys : List AuditRow)
    → All (λ x. p x ≡ false) xs
    → All (λ x. p x ≡ true) ys
    → filter p (xs ++ ys) ≡ ys
unfolding filter
filter_below p [] [] h k = refl
filter_below p [] (y ∷ ys) h k = ground (arith, k.0, filter_below p [] ys tt k.1)
filter_below p (x ∷ xs) ys h k = ground (arith, h.0, filter_below p xs ys h.1 k)

filter-filter :
    (p q r : AuditRow → Bool) (xs : List AuditRow)
    → ((x : AuditRow) → r x ≡ (q x && p x))
    → filter r xs ≡ filter p (filter q xs)
unfolding filter
filter-filter p q r [] same = refl
filter-filter p q r (x ∷ xs) same = elim (Bool-cases (q x)) [
  | inl hit ↦ rw hit (ground (arith, same x, hit, filter-filter p q r xs same))
  | inr miss ↦ rw miss (ground (arith, same x, miss, filter-filter p q r xs same))
]

Checked-cases :
    (x : Checked)
    → ((n : ℕ) × (e : ChainError) × (x ≡ Checked.broken n e))
      ⊎ ((d : Cursor) × (x ≡ Checked.intact d))
Checked-cases (Checked.broken n e) = inl (n, e, refl)
Checked-cases (Checked.intact d) = inr (d, refl)

length-drop :
    (n : ℕ) (rs : List AuditRow) → length (take_rows n rs) + length (drop_rows n rs) ≡ length rs
unfolding take_rows drop_rows
length-drop zero rs = ground arith
length-drop (suc n) [] = ground arith
length-drop (suc n) (r ∷ rs) = ground (arith, length-drop n rs)

module _ (sha256 : Hash) (chain_id : Text) (rows : List AuditRow) where
  -- The rows that are left after a number.
  left : ℕ → List AuditRow
  left after =
      sort_on (λ r. r.chain_seq) (filter (λ r. in_chain chain_id r && ltb after r.chain_seq) rows)

  left-above :
      (after next : ℕ) → after ≤ next → left next ≡ filter (λ r. ltb next r.chain_seq) (left after)
  unfolding left
  left-above after next h =
      ap (sort_on (λ r. r.chain_seq)) (
        filter-filter (λ r. ltb next r.chain_seq)
          (λ r. in_chain chain_id r && ltb after r.chain_seq)
          (λ r. in_chain chain_id r && ltb next r.chain_seq) rows (λ x. ground (arith, h)))
      ∙ sort_on-filter (λ r. r.chain_seq) (λ r. ltb next r.chain_seq) _ (λ x z p le. ground arith)

  last_seq-next :
      (batch : List AuditRow) (c d : Cursor) (after : ℕ)
      → suc after ≡ c.expected_seq
      → check_rows sha256 chain_id batch c ≡ Checked.intact d
      → suc (last_seq after batch) ≡ d.expected_seq
  unfolding last_seq check_rows advance
  last_seq-next [] c d after s h = ground arith
  last_seq-next (r ∷ batch) c d after s h =
      let (e, k) = check_rows-cons sha256 chain_id r batch c d h in
      let (n, _) = row_error-seq sha256 chain_id r c e in
      last_seq-next batch (advance r c) d r.chain_seq (ap suc n) k

  -- After an intact page the rest of the rows is what the next page is taken from.
  left-next :
      (size after : ℕ) (c d : Cursor)
      → suc after ≡ c.expected_seq
      → IsAscending (left after)
      → All (λ r. after < r.chain_seq) (left after)
      → check_rows sha256 chain_id (take_rows size (left after)) c ≡ Checked.intact d
      → (left (last_seq after (take_rows size (left after))) ≡ drop_rows size (left after))
        × All
            (λ r. last_seq after (take_rows size (left after)) < r.chain_seq)
            (drop_rows size (left after))
  left-next size after c d s asc above h =
      let batch = take_rows size (left after) in
      let rest = drop_rows size (left after) in
      let both = take-drop size (left after) in
      let last = last_seq-next batch c d after s h in
      let (below, n, _) = check_rows-bound sha256 chain_id batch c d h in
      let larger =
        after_last after batch rest (subst (All (λ r. after < r.chain_seq)) (sym both) above)
          (subst IsAscending (sym both) asc) in
      (
        left-above after (last_seq after batch) (ground (arith, s, last, n))
            ∙ ap (filter (λ r. ltb (last_seq after batch) r.chain_seq)) (sym both)
            ∙ filter_below (λ r. ltb (last_seq after batch) r.chain_seq) batch rest
                (All-imp (λ r. r.chain_seq < d.expected_seq) _ batch (λ r lt. ground (arith, last))
                  below)
                (All-imp (λ r. last_seq after batch < r.chain_seq) _ rest (λ r lt. ground arith)
                  larger),
        larger,
      )

  nothing :
      (rs : List AuditRow) (c : Cursor)
      → (length rs == 0) ≡ true
      → check_rows sha256 chain_id rs c ≡ Checked.intact c
  unfolding check_rows
  nothing [] c h = refl
  nothing (r ∷ rs) c h = absurd (ground arith)

  verify_from-left :
      (fuel size after : ℕ) (c : Cursor)
      → 0 < size
      → suc after ≡ c.expected_seq
      → IsAscending (left after)
      → All (λ r. after < r.chain_seq) (left after)
      → length (left after) < fuel
      → verify_from sha256 chain_id fuel size rows c after
        ≡ some (check_rows sha256 chain_id (left after) c)
  unfolding verify_from page left
  verify_from-left zero size after c pos s asc above h = absurd (ground arith)
  verify_from-left (suc fuel) size after c pos s asc above h =
      let batch = take_rows size (left after) in
      let rest = drop_rows size (left after) in
      let both = take-drop size (left after) in
      elim (Bool-cases (length batch == 0)) [
        | inl empty ↦
            let none_left : batch ≡ left after =
              take_all size (left after) (ground (arith, empty, pos)) in
            rw (verify_from, page, empty)
              (ap some (sym (nothing (left after) c (rw none_left at empty))))
        | inr full ↦ elim (Checked-cases (check_rows sha256 chain_id batch c)) [
          | inl (n, e, k) ↦
              rw (verify_from, page, full, k)
                (ap some (
                  sym (
                    ap (λ rs. check_rows sha256 chain_id rs c) (sym both)
                    ∙ check_rows-broken sha256 chain_id batch rest c n e k)))
          | inr (d, k) ↦
              let whole =
                ap (λ rs. check_rows sha256 chain_id rs c) (sym both)
                ∙ check_rows-append sha256 chain_id batch rest c d k in
              elim (Bool-cases (ltb (length batch) size)) [
                | inl short ↦
                    let all : batch ≡ left after =
                      take_all size (left after) (ground (arith, short)) in
                    rw (verify_from, page, full, k, short)
                      (ap some (sym k ∙ ap (λ rs. check_rows sha256 chain_id rs c) all))
                | inr more ↦
                    let (same, larger) = left-next size after c d s asc above k in
                    let next = last_seq after batch in
                    rw (verify_from, page, full, k, more)
                      (verify_from-left fuel size next d pos (last_seq-next batch c d after s k)
                          (subst IsAscending (sym same)
                            (IsAscending-after batch rest (subst IsAscending (sym both) asc)))
                          (subst (All (λ r. next < r.chain_seq)) (sym same) larger)
                          (ground (arith, ap length same, length-drop size (left after), full, h))
                        ∙ ap some (ap (λ rs. check_rows sha256 chain_id rs d) same ∙ sym whole))
              ]
        ]
      ]

  left_whole :
      All (λ r. 0 < r.chain_seq) (chain_rows chain_id rows) → left 0 ≡ chain_rows chain_id rows
  unfolding left chain_rows
  left_whole h =
      ap (sort_on (λ r. r.chain_seq)) (
        filter-filter (λ r. ltb 0 r.chain_seq) (in_chain chain_id)
          (λ r. in_chain chain_id r && ltb 0 r.chain_seq) rows (λ x. refl))
      ∙ sort_on-filter (λ r. r.chain_seq) (λ r. ltb 0 r.chain_seq) (filter (in_chain chain_id) rows)
          (λ x z p le. ground arith)
      ∙ filter_below (λ r. ltb 0 r.chain_seq) [] (chain_rows chain_id rows) tt
          (All-imp (λ r. 0 < r.chain_seq) _ (chain_rows chain_id rows) (λ r lt. ground arith) h)

  -- The paginated verification ends, and answers what one pass over the whole chain answers, intact or
  -- with the same first error, for every page size but 0, where no two rows of the chain have one
  -- number and none has the number 0. Fuel for one page more than there are rows is enough.
  pub verify_chain-check_rows :
      (fuel size : ℕ)
      → 0 < size
      → IsAscending (chain_rows chain_id rows)
      → All (λ r. 0 < r.chain_seq) (chain_rows chain_id rows)
      → length (chain_rows chain_id rows) < fuel
      → verify_chain sha256 fuel size chain_id rows
        ≡ some (check_rows sha256 chain_id (chain_rows chain_id rows) (start sha256 chain_id))
  unfolding verify_chain start
  verify_chain-check_rows fuel size pos asc above h =
      let all = left_whole above in
      verify_from-left fuel size 0 (start sha256 chain_id) pos refl
        (subst IsAscending (sym all) asc) (subst (All (λ r. 0 < r.chain_seq)) (sym all) above)
        (ground (arith, h, ap length all))
      ∙ ap some (ap (λ rs. check_rows sha256 chain_id rs (start sha256 chain_id)) all)
