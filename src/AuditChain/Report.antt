-- ===== src/AuditChain/Report.antt =====
-- `verifyAuditChains` of audit-verify.ts on what `logAudit` writes: the report over all chains.
use easygas_guide_server.Common.{
  ℕ, suc, ◌≤◌, ◌<◌, Bool, true, false, Option, none, some, List, [], ◌∷◌, ◌≡◌, ◌⊎◌, refl, arith,
  inl, inr, length, find, find-count, filter, any, count, count-append, count-update_same, sort_on,
  insert_on, Text, text_eq, text_eq_refl, text_eq-eq, All, All-imp, Bool-cases, ap, sym, ◌∙◌, subst,
}
use easygas_guide_server.AuditChain.Canonical.{Json}
use easygas_guide_server.AuditChain.{
  Hash, ColumnValue, AuditRow, AuditStore, Head, Entry, append_after, append_chained, chained_row,
  Cursor, Checked, VerifyResult, ChainResult, check_rows, advance, in_chain, is_head, ensure_head,
  genesis_hash, start, last_of, last_row, is_head_mismatch, head_mismatch, in_scope_of, chain_ids,
  verify_chain, verify_each, every_ok, result_of, verify_audit_chains,
}
use easygas_guide_server.AuditChain.Check.{check_rows-cons, row_error-seq}
use easygas_guide_server.AuditChain.Append.{
  chain_rows, EndsAt, AnchoredAt, Anchored, IsKept, append_chained-Anchored,
}
use easygas_guide_server.AuditChain.Pages.{IsAscending, verify_chain-check_rows}

length-insert_on :
    (r : AuditRow) (rs : List AuditRow)
    → length (insert_on (λ x. x.chain_seq) r rs) ≡ suc (length rs)
unfolding insert_on
length-insert_on r [] = refl
length-insert_on r (x ∷ rs) = ground (arith, length-insert_on r rs)

length-sort_on : (rs : List AuditRow) → length (sort_on (λ x. x.chain_seq) rs) ≡ length rs
unfolding sort_on
length-sort_on [] = refl
length-sort_on (r ∷ rs) =
    length-insert_on r (sort_on (λ x. x.chain_seq) rs) ∙ ap suc (length-sort_on rs)

length-filter : (p : AuditRow → Bool) (rs : List AuditRow) → length (filter p rs) ≤ length rs
unfolding filter
length-filter p [] = ground arith
length-filter p (r ∷ rs) = ground (arith, length-filter p rs)

length-chain_rows :
    (chain_id : Text) (rows : List AuditRow) → length (chain_rows chain_id rows) ≤ length rows
unfolding chain_rows
length-chain_rows chain_id rows =
    rw (length-sort_on (filter (in_chain chain_id) rows)) (length-filter (in_chain chain_id) rows)

module _ (sha256 : Hash) (chain_id : Text) where
  -- Rows that check are numbered in a rising order from the first expected number.
  check_rows-IsAscending :
      (rs : List AuditRow) (c d : Cursor)
      → check_rows sha256 chain_id rs c ≡ Checked.intact d
      → IsAscending rs × All (λ r. c.expected_seq ≤ r.chain_seq) rs
  unfolding IsAscending advance
  check_rows-IsAscending [] c d h = (tt, tt)
  check_rows-IsAscending (r ∷ rs) c d h =
      let (e, k) = check_rows-cons sha256 chain_id r rs c d h in
      let (seq, _) = row_error-seq sha256 chain_id r c e in
      let (rising, above) = check_rows-IsAscending rs (advance r c) d k in
      (
        (
          All-imp (λ x. suc c.expected_seq ≤ x.chain_seq) (λ x. r.chain_seq < x.chain_seq) rs
              (λ x le. ground arith) above,
          rising,
        ),
        (
          ground arith,
          All-imp (λ x. suc c.expected_seq ≤ x.chain_seq) (λ x. c.expected_seq ≤ x.chain_seq) rs
              (λ x le. ground arith) above,
        ),
      )

  -- The last of the rows that check is where the check ends.
  check_rows-last_of :
      (rs : List AuditRow) (found : Option AuditRow) (c d : Cursor)
      → check_rows sha256 chain_id rs c ≡ Checked.intact d
      → ((last_of found rs ≡ found) × (c ≡ d))
        ⊎ ((r : AuditRow) × (last_of found rs ≡ some r)
            × (r.entry_hash ≡ d.expected_prev)
            × (suc r.chain_seq ≡ d.expected_seq))
  unfolding check_rows last_of advance
  check_rows-last_of [] found c d h = inl (refl, ground arith)
  check_rows-last_of (r ∷ rs) found c d h =
      let (e, k) = check_rows-cons sha256 chain_id r rs c d h in
      let (seq, _) = row_error-seq sha256 chain_id r c e in
      elim (check_rows-last_of rs (some r) (advance r c) d k) [
        | inl (last, same) ↦ inr (
          r,
          last,
          ap (λ (x : Cursor). x.expected_prev) same,
          ground (arith, ap (λ (x : Cursor). x.expected_seq) same),
        )
        | inr found_last ↦ inr found_last
      ]

-- The chain id is the primary key of the heads.
unfoldable pub IsIndexed : List Head → Type 0
IsIndexed heads = (chain_id : Text) → count (is_head chain_id) heads ≤ 1

indexed_found :
    (heads : List Head)
    → IsIndexed heads
    → All (λ h. find (is_head h.chain_id) heads ≡ some h) heads
unfolding IsIndexed find count
indexed_found [] key = tt
indexed_found (x ∷ heads) key = (
  rw (text_eq_refl x.chain_id) refl,
  All-imp (λ h. find (is_head h.chain_id) heads ≡ some h)
      (λ h. find (is_head h.chain_id) (x ∷ heads) ≡ some h) heads
      (λ h e. ground (
        arith,
        key h.chain_id,
        find-count (is_head h.chain_id) (is_head h.chain_id) heads h e (text_eq_refl h.chain_id),
        e,
      ))
      (indexed_found heads (λ id. ground (arith, key id))),
)

any-count-zero : (p : Head → Bool) (heads : List Head) → any p heads ≡ false → count p heads ≡ 0
unfolding any count
any-count-zero p [] h = refl
any-count-zero p (x ∷ heads) h = ground (arith, any-count-zero p heads)

ensure_head-IsIndexed :
    (sha256 : Hash) (chain_id : Text) (heads : List Head)
    → IsIndexed heads
    → IsIndexed (ensure_head sha256 chain_id heads)
unfolding IsIndexed ensure_head count
ensure_head-IsIndexed sha256 chain_id heads key id =
    elim (Bool-cases (any (is_head chain_id) heads)) [
      | inl there ↦ rw (ensure_head, there) (key id)
      | inr absent ↦
          rw
            (
              ensure_head,
              absent,
              count-append (is_head id) heads (
                  record {
                    chain_id = chain_id;
                    head_hash = genesis_hash sha256 chain_id;
                    head_seq = 0;
                  }
                  ∷ []),
            )
            (elim (Bool-cases (text_eq chain_id id)) [
              | inl same ↦ ground (
                arith,
                same,
                subst (λ t. count (is_head t) heads ≡ 0) (text_eq-eq chain_id id same)
                    (any-count-zero (is_head chain_id) heads absent),
              )
              | inr other ↦ ground (arith, other, key id)
            ])
    ]

module _ (sha256 : Hash) (s : AuditStore) where
  anchored_intact :
      (chain_id : Text) (head : Option Head)
      → AnchoredAt sha256 chain_id s.rows head
      → (d : Cursor) × (check_rows sha256 chain_id
            (chain_rows chain_id s.rows)
            (start sha256 chain_id)
          ≡ Checked.intact d)
  unfolding AnchoredAt EndsAt chain_rows sort_on check_rows
  anchored_intact chain_id none h = (start sha256 chain_id, rw h refl)
  anchored_intact chain_id (some head) h = (
    record {
      expected_prev = head.head_hash;
      expected_seq = suc head.head_seq;
      entries = head.head_seq;
    },
    h,
  )

  verify-Anchored :
      (fuel size : ℕ) (chain_id : Text)
      → 0 < size
      → length s.rows < fuel
      → Anchored sha256 chain_id s
      → (d : Cursor) × (verify_chain sha256 fuel size chain_id s.rows ≡ some (Checked.intact d))
  unfolding Anchored start
  verify-Anchored fuel size chain_id pos enough a =
      let (d, e) = anchored_intact chain_id (find (is_head chain_id) s.heads) a in
      let (rising, above) =
        check_rows-IsAscending sha256 chain_id (chain_rows chain_id s.rows) (start sha256 chain_id)
          d e in
      (
        d,
        verify_chain-check_rows sha256 chain_id s.rows fuel size pos rising
              (All-imp (λ r. 1 ≤ r.chain_seq) (λ r. 0 < r.chain_seq) (chain_rows chain_id s.rows)
                (λ r le. ground arith) above)
              (ground (arith, length-chain_rows chain_id s.rows))
            ∙ ap some e,
      )

  verify_each-ok :
      (fuel size : ℕ) (ids : List Text)
      → 0 < size
      → length s.rows < fuel
      → ((chain_id : Text) → Anchored sha256 chain_id s)
      → (chains : List ChainResult) × (verify_each sha256 fuel size ids s.rows ≡ some chains)
        × (every_ok chains ≡ true)
  unfolding verify_each
  verify_each-ok fuel size [] pos enough a = ([], refl, refl)
  verify_each-ok fuel size (id ∷ ids) pos enough a =
      let (d, e) = verify-Anchored fuel size id pos enough (a id) in
      let (chains, k, fine) = verify_each-ok fuel size ids pos enough a in
      (record { chain_id = id; checked = Checked.intact d } ∷ chains, rw (e, k) refl, fine)

  last_row-Anchored :
      (h : Head) (last : Option AuditRow)
      → ((last ≡ none)
          × (start sha256 h.chain_id ≡ (record {
            expected_prev = h.head_hash;
            expected_seq = suc h.head_seq;
            entries = h.head_seq;
          })))
        ⊎ ((r : AuditRow) × (last ≡ some r)
            × (r.entry_hash ≡ h.head_hash)
            × (suc r.chain_seq ≡ suc h.head_seq))
      → last_row h.chain_id s.rows ≡ last
      → is_head_mismatch sha256 s.rows h ≡ false
  unfolding is_head_mismatch start
  last_row-Anchored h last (inl (e, same)) k =
      rw
        (
          is_head_mismatch,
          k,
          e,
          sym (ap (λ (c : Cursor). c.expected_prev) same),
          text_eq_refl (genesis_hash sha256 h.chain_id),
        )
        (ground (arith, ap (λ (c : Cursor). c.entries) same))
  last_row-Anchored h last (inr (r, e, hash, seq)) k =
      rw (is_head_mismatch, k, e, hash, text_eq_refl h.head_hash) (ground arith)

  head-Anchored :
      (h : Head)
      → EndsAt sha256 h.chain_id s.rows h.head_hash h.head_seq
      → is_head_mismatch sha256 s.rows h ≡ false
  unfolding EndsAt chain_rows last_row
  head-Anchored h e =
      last_row-Anchored h (last_row h.chain_id s.rows)
        (check_rows-last_of sha256 h.chain_id (chain_rows h.chain_id s.rows) none
          (start sha256 h.chain_id) _ e)
        refl

  heads-Anchored :
      (only : Option Text) (heads : List Head)
      → All (λ h. EndsAt sha256 h.chain_id s.rows h.head_hash h.head_seq) heads
      → filter (is_head_mismatch sha256 s.rows) (filter (λ h. in_scope_of only h.chain_id) heads)
        ≡ []
  unfolding filter
  heads-Anchored only [] a = refl
  heads-Anchored only (h ∷ hs) (a, rest) =
      ground (arith, head-Anchored h a, heads-Anchored only hs rest)

  indexed-EndsAt :
      IsIndexed s.heads
      → ((chain_id : Text) → Anchored sha256 chain_id s)
      → All (λ h. EndsAt sha256 h.chain_id s.rows h.head_hash h.head_seq) s.heads
  unfolding Anchored AnchoredAt
  indexed-EndsAt key a =
      All-imp (λ h. find (is_head h.chain_id) s.heads ≡ some h) _ s.heads
        (λ h e. subst (AnchoredAt sha256 h.chain_id s.rows) e (a h.chain_id))
        (indexed_found s.heads key)

  -- The verifier reports no fault in a log whose chains are verified and end at their heads, for every
  -- page size but 0, over all chains or one, with fuel for one page more than there are rows. The
  -- chain ids of heads are a key.
  verify_audit_chains-ok :
      (fuel size : ℕ) (only : Option Text)
      → 0 < size
      → length s.rows < fuel
      → IsIndexed s.heads
      → ((chain_id : Text) → Anchored sha256 chain_id s)
      → (result : VerifyResult) × (verify_audit_chains sha256 fuel size only s ≡ some result)
        × (result.is_ok ≡ true)
  unfolding head_mismatch verify_audit_chains
  verify_audit_chains-ok fuel size only pos enough key a =
      let (chains, e, fine) =
        verify_each-ok fuel size (filter (in_scope_of only) (chain_ids s.rows)) pos enough a in
      (
        result_of sha256 only s chains,
        rw (verify_audit_chains, e) refl,
        rw (fine, heads-Anchored only s.heads (indexed-EndsAt key a)) refl,
      )

append_after-IsIndexed :
    (sha256 : Hash) (stored : Json → ColumnValue) (chain_id at : Text) (e : Entry)
    (rows : List AuditRow) (heads : List Head) (head : Option Head)
    → IsIndexed heads
    → IsIndexed (append_after sha256 stored chain_id at e rows heads head).heads
unfolding append_after IsIndexed
append_after-IsIndexed sha256 stored chain_id at e rows heads none key id = key id
append_after-IsIndexed sha256 stored chain_id at e rows heads (some head) key id =
    let row = chained_row sha256 stored chain_id head e at in
    rw
      (count-update_same (is_head id) (is_head chain_id)
        (λ h. record h { head_hash = row.entry_hash; head_seq = row.chain_seq }) heads (λ h. refl))
      (key id)

-- One call of `logAudit`: the day's chain, the timestamp of the transaction and the entry.
pub record Write : Type 0 where
  pub chain_id : Text
  pub created_at : Text
  pub entry : Entry

-- A log that only `logAudit` wrote, the last call first.
unfoldable pub written : Hash → (Json → ColumnValue) → List Write → AuditStore
written sha256 stored [] = record { rows = []; heads = [] }
written sha256 stored (w ∷ ws) =
    append_chained sha256 stored w.chain_id w.created_at w.entry (written sha256 stored ws)

module _ (sha256 : Hash) (stored : Json → ColumnValue) where
  written-IsIndexed : (ws : List Write) → IsIndexed (written sha256 stored ws).heads
  unfolding IsIndexed written append_chained count
  written-IsIndexed [] id = ground arith
  written-IsIndexed (w ∷ ws) id =
      append_after-IsIndexed sha256 stored w.chain_id w.created_at w.entry _ _ _
        (ensure_head-IsIndexed sha256 w.chain_id _ (written-IsIndexed ws)) id

  written-Anchored :
      (ws : List Write)
      → All (λ w. IsKept stored w.entry) ws
      → (chain_id : Text) → Anchored sha256 chain_id (written sha256 stored ws)
  unfolding written Anchored AnchoredAt find filter
  written-Anchored [] back chain_id = refl
  written-Anchored (w ∷ ws) (back, rest) chain_id =
      append_chained-Anchored sha256 stored w.chain_id w.entry w.created_at back
        (written sha256 stored ws) (written-Anchored ws rest) chain_id

  -- The verifier reports no fault in a log that only `logAudit` wrote, whatever was written and on
  -- whatever days, over all chains or one, for every page size but 0. Fuel for one page more than there
  -- are rows is given, and the JSON columns give the values that were written back with their members in
  -- any order.
  pub verify_audit_chains-written :
      (ws : List Write) (fuel size : ℕ) (only : Option Text)
      → All (λ w. IsKept stored w.entry) ws
      → 0 < size
      → length (written sha256 stored ws).rows < fuel
      → (result : VerifyResult) × (verify_audit_chains sha256 fuel size only
            (written sha256 stored ws)
          ≡ some result)
        × (result.is_ok ≡ true)
  verify_audit_chains-written ws fuel size only back pos enough =
      verify_audit_chains-ok sha256 (written sha256 stored ws) fuel size only pos enough
        (written-IsIndexed ws) (written-Anchored ws back)
