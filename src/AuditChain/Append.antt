-- ===== src/AuditChain/Append.antt =====
-- `appendChained` of audit.service.ts keeps every chain verified and every head at its last row.
use easygas_guide_server.Common.{
  ℕ, suc, ◌≤◌, ◌<◌, true, false, Option, none, some, List, [], ◌∷◌, ◌++◌, ◌≡◌, refl, arith, inl,
  inr, find, filter, update, any, sort_on, sort_on-last, Text, text_eq, text_eq_refl, text_eq-eq,
  All-imp, find-update, find-append_none, find-true, find-any, find-update_miss, find-append_miss,
  find-none-any, Option-cases, Bool-cases, ap, sym, ◌∙◌, subst,
}
use easygas_guide_server.AuditChain.Canonical.{Json}
use easygas_guide_server.AuditChain.Order.{Reordered, ReorderedMembers, canonicalize-Reordered}
use easygas_guide_server.AuditChain.{
  Hash, AuditRow, AuditStore, Head, Entry, Cursor, Checked, row_error, advance, check_rows,
  in_chain, is_head, ensure_head, append_after, chained_row, append_chained, genesis_hash, start,
  fields_of, row_fields, compute_entry_hash, build_canonical, chain_members, ChainFields,
  ColumnValue, parse_maybe_json,
}
use easygas_guide_server.AuditChain.Check.{
  row_error-none, check_rows-one, check_rows-append, check_rows-bound, filter-append, filter-skip,
}

-- The rows of a chain in the order that the verifier reads.
unfoldable pub chain_rows : Text → List AuditRow → List AuditRow
chain_rows chain_id rows = sort_on (λ r. r.chain_seq) (filter (in_chain chain_id) rows)

-- The rows of the chain check from the genesis hash on, and end at a hash and a number.
unfoldable pub EndsAt : Hash → Text → List AuditRow → Text → ℕ → Type 0
EndsAt sha256 chain_id rows hash seq =
    check_rows sha256 chain_id (chain_rows chain_id rows) (start sha256 chain_id)
    ≡ Checked.intact (record { expected_prev = hash; expected_seq = suc seq; entries = seq })

unfoldable pub AnchoredAt : Hash → Text → List AuditRow → Option Head → Type 0
AnchoredAt sha256 chain_id rows none = filter (in_chain chain_id) rows ≡ []
AnchoredAt sha256 chain_id rows (some h) = EndsAt sha256 chain_id rows h.head_hash h.head_seq

-- A chain that has a head ends at it, and one that has none has no rows.
unfoldable pub Anchored : Hash → Text → AuditStore → Type 0
unfolding AnchoredAt
Anchored sha256 chain_id s = AnchoredAt sha256 chain_id s.rows (find (is_head chain_id) s.heads)

chain_members-Reordered :
    (f : ChainFields) (v w : Json)
    → Reordered f.old_value v
    → Reordered f.new_value w
    → ReorderedMembers (chain_members f) (chain_members (record f { old_value = v; new_value = w }))
unfolding chain_members
chain_members-Reordered f v w old new = ReorderedMembers.members _ _ _ _ _ (Reordered.same _) (
    ReorderedMembers.members _ _ _ _ _ (Reordered.same _) (
      ReorderedMembers.members _ _ _ _ _ (Reordered.same _) (
        ReorderedMembers.members _ _ _ _ _ (Reordered.same _) (
          ReorderedMembers.members _ _ _ _ _ (Reordered.same _) (
            ReorderedMembers.members _ _ _ _ _ (Reordered.same _) (
              ReorderedMembers.members _ _ _ _ _ (Reordered.same _) (
                ReorderedMembers.members _ _ _ _ _ (Reordered.same _) (
                  ReorderedMembers.members _ _ _ _ _ (old) (
                    ReorderedMembers.members _ _ _ _ _ (new) (
                      ReorderedMembers.members _ _ _ _ _ (Reordered.same _) (
                        ReorderedMembers.members _ _ _ _ _ (Reordered.same _) (
                          ReorderedMembers.members _ _ _ _ _ (Reordered.same _)
                            ReorderedMembers.no_members))))))))))))

-- The columns give the values of an entry back, with the members of objects in any order.
abbrev pub IsKept : (Json → ColumnValue) → Entry → Type 0
IsKept stored e =
    Reordered e.old_value (parse_maybe_json (stored e.old_value))
    × Reordered e.new_value (parse_maybe_json (stored e.new_value))

-- The hash that was written is the hash of what is read back.
stored_hash :
    (sha256 : Hash) (stored : Json → ColumnValue) (chain_id : Text) (head : Head) (e : Entry)
    (created_at : Text)
    → IsKept stored e
    → compute_entry_hash sha256 (fields_of chain_id head e created_at)
      ≡ compute_entry_hash sha256
          (row_fields chain_id (chained_row sha256 stored chain_id head e created_at))
unfolding compute_entry_hash build_canonical row_fields chained_row
stored_hash sha256 stored chain_id head e created_at h = ap sha256 (
    canonicalize-Reordered (
      Reordered.in_object _ _ (
        chain_members-Reordered (fields_of chain_id head e created_at)
          (parse_maybe_json (stored e.old_value)) (parse_maybe_json (stored e.new_value)) h.0 h.1)))

module _ (sha256 : Hash) (stored : Json → ColumnValue) (chain_id : Text) (e : Entry)
    (created_at : Text) (back : IsKept stored e) where
  abbrev new_row : Head → AuditRow
  new_row head = chained_row sha256 stored chain_id head e created_at

  abbrev at_head : Head → Cursor
  at_head head = record {
    expected_prev = head.head_hash;
    expected_seq = suc head.head_seq;
    entries = head.head_seq;
  }

  new_row_checks : (head : Head) → row_error sha256 chain_id (new_row head) (at_head head) ≡ none
  unfolding chained_row
  new_row_checks head =
      row_error-none sha256 chain_id (new_row head) (at_head head) refl
        (text_eq_refl head.head_hash)
        (subst (λ t. text_eq t (new_row head).entry_hash ≡ true)
          (stored_hash sha256 stored chain_id head e created_at back)
          (text_eq_refl (new_row head).entry_hash))

  new_row-EndsAt :
      (head : Head) (rows : List AuditRow)
      → EndsAt sha256 chain_id rows head.head_hash head.head_seq
      → EndsAt sha256 chain_id
          (rows ++ new_row head ∷ [])
          (new_row head).entry_hash
          (suc head.head_seq)
  unfolding EndsAt chain_rows chained_row advance filter
  new_row-EndsAt head rows h =
      let row = new_row head in
      let (below, _, _) =
        check_rows-bound sha256 chain_id (chain_rows chain_id rows) (start sha256 chain_id)
          (at_head head) h in
      let selected : filter (in_chain chain_id) (rows ++ row ∷ [])
          ≡ filter (in_chain chain_id) rows ++ row ∷ [] =
        filter-append (in_chain chain_id) rows (row ∷ []) ∙ rw (text_eq_refl chain_id) refl in
      let sorted : chain_rows chain_id (rows ++ row ∷ []) ≡ chain_rows chain_id rows ++ row ∷ [] =
        ap (sort_on (λ r. r.chain_seq)) selected
        ∙ sort_on-last (λ r. r.chain_seq) (filter (in_chain chain_id) rows) row
            (All-imp (λ r. r.chain_seq < suc head.head_seq) (λ r. r.chain_seq ≤ row.chain_seq) _
              (λ r lt. omega arith) below) in
      rw
        (
          sorted,
          check_rows-append sha256 chain_id (chain_rows chain_id rows) (row ∷ [])
              (start sha256 chain_id) (at_head head) h,
        )
        (check_rows-one sha256 chain_id row (at_head head) (new_row_checks head))

  empty-EndsAt :
      (rows : List AuditRow)
      → filter (in_chain chain_id) rows ≡ []
      → EndsAt sha256 chain_id rows (genesis_hash sha256 chain_id) 0
  unfolding EndsAt chain_rows start check_rows sort_on
  empty-EndsAt rows h =
      ap (λ rs. check_rows sha256 chain_id (sort_on (λ r. r.chain_seq) rs) (start sha256 chain_id))
        h
      ∙ nothing
    where
      nothing :
          check_rows sha256 chain_id (sort_on (λ r. r.chain_seq) []) (start sha256 chain_id)
          ≡ Checked.intact (start sha256 chain_id)
      nothing = refl

  ensured_head :
      (s : AuditStore)
      → Anchored sha256 chain_id s
      → (head : Head) × (find (is_head chain_id) (ensure_head sha256 chain_id s.heads) ≡ some head)
        × EndsAt sha256 chain_id s.rows head.head_hash head.head_seq
  unfolding Anchored AnchoredAt ensure_head find
  ensured_head s h = elim (Option-cases (find (is_head chain_id) s.heads)) [
    | inr (head, k) ↦ (
      head,
      rw (ensure_head, find-any (is_head chain_id) s.heads head k) k,
      subst (AnchoredAt sha256 chain_id s.rows) k h,
    )
    | inl k ↦
        let fresh : Head = record {
          chain_id = chain_id;
          head_hash = genesis_hash sha256 chain_id;
          head_seq = 0;
        } in
        (
          fresh,
          rw (ensure_head, find-none-any (is_head chain_id) s.heads k)
              (find-append_none (is_head chain_id) s.heads (fresh ∷ []) k ∙ first fresh),
          empty-EndsAt s.rows (subst (AnchoredAt sha256 chain_id s.rows) k h),
        )
  ]
    where
      first : (h : Head) → find (is_head h.chain_id) (h ∷ []) ≡ some h
      first h = rw (find, text_eq_refl h.chain_id) refl

  abbrev moved : AuditRow → Head → Head
  moved row h = record h { head_hash = row.entry_hash; head_seq = row.chain_seq }

  append_chained_shape :
      (s : AuditStore) (head : Head)
      → find (is_head chain_id) (ensure_head sha256 chain_id s.heads) ≡ some head
      → append_chained sha256 stored chain_id created_at e s ≡ record {
        rows = s.rows ++ new_row head ∷ [];
        heads =
            update (is_head chain_id) (moved (new_row head)) (ensure_head sha256 chain_id s.heads);
      }
  unfolding append_chained append_after
  append_chained_shape s head k =
      ap
        (append_after sha256 stored chain_id created_at e s.rows
          (ensure_head sha256 chain_id s.heads))
        k

  -- The appended chain ends at its new head.
  append_chained-same :
      (s : AuditStore)
      → Anchored sha256 chain_id s
      → Anchored sha256 chain_id (append_chained sha256 stored chain_id created_at e s)
  unfolding Anchored AnchoredAt chained_row
  append_chained-same s h =
      let (head, k, ends) = ensured_head s h in
      let row = new_row head in
      let heads = ensure_head sha256 chain_id s.heads in
      let hit : find (is_head chain_id) (update (is_head chain_id) (moved row) heads)
          ≡ some (moved row head) =
        find-update (is_head chain_id) (is_head chain_id) (moved row) heads (λ x. refl)
        ∙ rw k (rw (find-true (is_head chain_id) heads head k) refl) in
      subst (Anchored sha256 chain_id) (sym (append_chained_shape s head k)) (
        subst (AnchoredAt sha256 chain_id (s.rows ++ row ∷ [])) (sym hit)
          (new_row-EndsAt head s.rows ends))

  other_head :
      (other a : Text)
      → text_eq chain_id other ≡ false
      → text_eq a chain_id ≡ true
      → text_eq a other ≡ false
  other_head other a differs same = rw (text_eq-eq a chain_id same) differs

  ensure_head-other :
      (other : Text) (heads : List Head)
      → text_eq chain_id other ≡ false
      → find (is_head other) (ensure_head sha256 chain_id heads) ≡ find (is_head other) heads
  unfolding ensure_head
  ensure_head-other other heads differs = elim (Bool-cases (any (is_head chain_id) heads)) [
    | inl there ↦ rw (ensure_head, there) refl
    | inr missing ↦ rw (ensure_head, missing) (find-append_miss (is_head other) heads _ differs)
  ]

  AnchoredAt-other :
      (other : Text) (rows : List AuditRow) (row : AuditRow) (head : Option Head)
      → in_chain other row ≡ false
      → AnchoredAt sha256 other rows head
      → AnchoredAt sha256 other (rows ++ row ∷ []) head
  unfolding AnchoredAt EndsAt chain_rows
  AnchoredAt-other other rows row none miss h = filter-skip (in_chain other) rows row miss ∙ h
  AnchoredAt-other other rows row (some head) miss h =
      ap (λ rs. check_rows sha256 other (sort_on (λ r. r.chain_seq) rs) (start sha256 other))
        (filter-skip (in_chain other) rows row miss)
      ∙ h

  -- Another chain keeps its rows and its head.
  append_chained-other :
      (other : Text) (s : AuditStore)
      → text_eq chain_id other ≡ false
      → Anchored sha256 chain_id s
      → Anchored sha256 other s
      → Anchored sha256 other (append_chained sha256 stored chain_id created_at e s)
  unfolding Anchored AnchoredAt chained_row
  append_chained-other other s differs h a =
      let (head, k, ends) = ensured_head s h in
      let row = new_row head in
      let heads = ensure_head sha256 chain_id s.heads in
      let miss : find (is_head other) (update (is_head chain_id) (moved row) heads)
          ≡ find (is_head other) s.heads =
        find-update_miss (is_head other) (is_head chain_id) (moved row) heads (λ x same.
          (other_head other x.chain_id differs same, other_head other x.chain_id differs same))
        ∙ ensure_head-other other s.heads differs in
      subst (Anchored sha256 other) (sym (append_chained_shape s head k)) (
        subst (AnchoredAt sha256 other (s.rows ++ row ∷ [])) (sym miss)
          (AnchoredAt-other other s.rows row _ differs a))

  -- Every append keeps every chain verified from its genesis hash to its head, and every head at the last
  -- row of its chain: the appended chain with its new row, and all others as they were. The JSON columns
  -- give the entry's values back with their members in any order.
  pub append_chained-Anchored :
      (s : AuditStore)
      → ((other : Text) → Anchored sha256 other s)
      → (other : Text)
      → Anchored sha256 other (append_chained sha256 stored chain_id created_at e s)
  append_chained-Anchored s h other = elim (Bool-cases (text_eq chain_id other)) [
    | inl same ↦
        subst (λ c. Anchored sha256 c (append_chained sha256 stored chain_id created_at e s))
          (text_eq-eq chain_id other same) (append_chained-same s (h chain_id))
    | inr differs ↦ append_chained-other other s differs (h chain_id) (h other)
  ]
