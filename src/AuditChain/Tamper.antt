-- ===== src/AuditChain/Tamper.antt =====
-- Tampering that `verifyChain` of audit-verify.ts detects.
use easygas_guide_server.Common.{List, [], ◌∷◌, ◌++◌, ◌≡◌, refl, arith, Text, text_eq-eq, sym, ◌∙◌}
use easygas_guide_server.AuditChain.{
  Hash, AuditRow, Cursor, Checked, advance, check_rows, row_fields, compute_entry_hash,
  build_canonical,
}
use easygas_guide_server.AuditChain.Check.{check_rows-cons, row_error-seq, row_error-hash}

module _ (sha256 : Hash) (chain_id : Text) where
  -- What follows a row fixes its hash.
  next_prev :
      (r s : AuditRow) (post : List AuditRow) (c d e f : Cursor)
      → check_rows sha256 chain_id (r ∷ post) c ≡ Checked.intact e
      → check_rows sha256 chain_id (s ∷ post) d ≡ Checked.intact f
      → e.expected_prev ≡ f.expected_prev
      → r.entry_hash ≡ s.entry_hash
  unfolding check_rows advance
  next_prev r s [] c d e f h k same =
      let (_, a) = check_rows-cons sha256 chain_id r [] c e h in
      let (_, b) = check_rows-cons sha256 chain_id s [] d f k in ground (arith, a, b)
  next_prev r s (t ∷ post) c d e f h k same =
      let (_, a) = check_rows-cons sha256 chain_id r (t ∷ post) c e h in
      let (_, b) = check_rows-cons sha256 chain_id s (t ∷ post) d f k in
      let (_, p) =
        row_error-seq sha256 chain_id t (advance r c)
          (check_rows-cons sha256 chain_id t post (advance r c) e a).0 in
      let (_, q) =
        row_error-seq sha256 chain_id t (advance s d)
          (check_rows-cons sha256 chain_id t post (advance s d) f b).0 in
      sym (text_eq-eq t.prev_hash r.entry_hash p) ∙ text_eq-eq t.prev_hash s.entry_hash q

  split_check :
      (pre post : List AuditRow) (c d : Cursor)
      → check_rows sha256 chain_id (pre ++ post) c ≡ Checked.intact d
      → (m : Cursor) × (check_rows sha256 chain_id pre c ≡ Checked.intact m)
        × (check_rows sha256 chain_id post m ≡ Checked.intact d)
  unfolding check_rows
  split_check [] post c d h = (c, refl, h)
  split_check (r ∷ pre) post c d h =
      let (e, k) = check_rows-cons sha256 chain_id r (pre ++ post) c d h in
      let (m, a, b) = split_check pre post (advance r c) d k in (m, rw (check_rows, e) a, b)

  -- A row that is rewritten is found out, also where its own hash was computed again: if the chain
  -- still checks and still ends at the hash of its head, what is hashed of the row is unchanged.
  -- SHA-256 has no collision.
  pub check_rows-tamper :
      (pre post : List AuditRow) (r s : AuditRow) (c e f : Cursor)
      → ((x y : Text) → sha256 x ≡ sha256 y → x ≡ y)
      → check_rows sha256 chain_id (pre ++ r ∷ post) c ≡ Checked.intact e
      → check_rows sha256 chain_id (pre ++ s ∷ post) c ≡ Checked.intact f
      → e.expected_prev ≡ f.expected_prev
      → build_canonical (row_fields chain_id r) ≡ build_canonical (row_fields chain_id s)
  unfolding compute_entry_hash
  check_rows-tamper pre post r s c e f injective h k same =
      let (m, _, hr) = split_check pre (r ∷ post) c e h in
      let (n, _, hs) = split_check pre (s ∷ post) c f k in
      let hash = next_prev r s post m n e f hr hs same in
      injective _ _ (
        row_error-hash sha256 chain_id r m (check_rows-cons sha256 chain_id r post m e hr).0
        ∙ hash
        ∙ sym
            (row_error-hash sha256 chain_id s n (check_rows-cons sha256 chain_id s post n f hs).0))
