-- ===== src/Sessions/Family.antt =====
-- The sessions of one family under session.service.ts: at most one of them is current.
use easygas_guide_server.Common.{
  ℕ, ◌≤◌, Bool, true, not, ◌&&◌, ◌||◌, if◌then◌else◌, if_both, Option, none, some, List, [], ◌∷◌,
  ◌++◌, ◌≡◌, arith, inl, inr, ◌==◌, count, find, update, is_some, Text, Bool-cases, Option-cases,
  count-append, count-update-le, count-update_hit, ltb, leb, ◌-◌, find-append,
}
use easygas_guide_server.Sessions.{
  Session, Limits, Clock, Fresh, revoke_family, successor_of, supersede, rotate_session, touch,
  find_token, Outcome, rotated_outcome, resolve_current, resolve_row, resolve_session, is_expired,
  is_token, rotate_ms, grace_ms,
}

-- Neither rotated out nor revoked.
unfoldable pub is_current : Session → Bool
is_current s = not (is_some s.superseded_at) && not (is_some s.revoked_at)

unfoldable pub current_in : ℕ → Session → Bool
current_in family_id s = s.family_id == family_id && is_current s

unfoldable pub IsLinear : List Session → Type 0
IsLinear sessions = (family_id : ℕ) → count (current_in family_id) sessions ≤ 1

module _ {ℓ} (P : List Session → Type ℓ) (hash : Text → Text) (limits : Limits) (now : Clock)
    (fresh : Fresh) (sessions : List Session) where
  abbrev Leaves : Outcome × List Session → Type ℓ
  Leaves r = P r.1

  rotated_outcome-P :
      (row : Session) (token : Text) (r : Option Session × List Session)
      → P r.1
      → P (rotated_outcome row token r).1
  unfolding rotated_outcome
  rotated_outcome-P row token (none, after) h = h
  rotated_outcome-P row token (some s, after) h = h

  resolve_current-P :
      (row : Session)
      → P sessions
      → ((id : ℕ) → P (update (λ s. s.id == id) (touch now) sessions))
      → ((id : ℕ) → P (rotate_session hash id now fresh sessions).1)
      → P (resolve_current hash limits row now fresh sessions).1
  unfolding resolve_current rotate_ms
  resolve_current-P row same touched rotated =
      if_both Leaves (ltb (rotate_ms limits) (now.js - row.created_at))
        (rotated_outcome row fresh.token (rotate_session hash row.id now fresh sessions))
        (if ltb 60_000 (now.js - row.last_used_at)
          then (Outcome.resolved row none, update (λ s. s.id == row.id) (touch now) sessions)
          else (Outcome.resolved row none, sessions))
        (rotated_outcome-P row fresh.token (rotate_session hash row.id now fresh sessions)
          (rotated row.id))
        (if_both Leaves (ltb 60_000 (now.js - row.last_used_at))
          (Outcome.resolved row none, update (λ s. s.id == row.id) (touch now) sessions)
          (Outcome.resolved row none, sessions) (touched row.id) same)

  resolve_row-P :
      (superseded : Option ℕ) (row : Session)
      → P sessions
      → ((id : ℕ) → P (update (λ s. s.id == id) (touch now) sessions))
      → ((family_id : ℕ) → P (revoke_family family_id now.db sessions))
      → ((id : ℕ) → P (rotate_session hash id now fresh sessions).1)
      → P (resolve_row hash limits superseded row now fresh sessions).1
  unfolding resolve_row
  resolve_row-P none row same touched revoked rotated = resolve_current-P row same touched rotated
  resolve_row-P (some at) row same touched revoked rotated =
      if_both Leaves (leb (now.js - at) (grace_ms limits)) (Outcome.resolved row none, sessions)
        (Outcome.replay, revoke_family row.family_id now.db sessions) same (revoked row.family_id)

  -- What a request leaves behind, by the write that it comes to.
  pub resolve_cases :
      (raw : Option Text) (before : List Session)
      → P sessions
      → ((id : ℕ) → P (update (λ s. s.id == id) (touch now) sessions))
      → ((family_id : ℕ) → P (revoke_family family_id now.db sessions))
      → ((id : ℕ) → P (rotate_session hash id now fresh sessions).1)
      → P (resolve_session hash limits raw now fresh before sessions).1
  unfolding resolve_session
  resolve_cases none before same touched revoked rotated = same
  resolve_cases (some raw) before same touched revoked rotated =
      if_both Leaves (is_token (some raw)) _ (Outcome.invalid, sessions) found same
    where
      found :
          P
            (elim (find_token hash raw before) as (λ x. Outcome × List Session) [
              | none ↦ (Outcome.invalid, sessions)
              | some row ↦
                  if is_some row.revoked_at || is_expired limits now row
                  then (Outcome.invalid, sessions)
                  else resolve_row hash limits row.superseded_at row now fresh sessions
            ]).1
      found = elim (Option-cases (find_token hash raw before)) [
        | inl e ↦ rw e same
        | inr (row, e) ↦ rw e (
            if_both Leaves _ _ _ same
              (resolve_row-P row.superseded_at row same touched revoked rotated))
      ]

rotate_found-le :
    (hash : Text → Text) (id f : ℕ) (now : Clock) (fresh : Fresh) (xs : List Session)
    (cur : Session)
    → find (λ s. s.id == id) xs ≡ some cur
    → is_current cur ≡ true
    → count (current_in f) xs ≤ 1
    → count (current_in f) (
        update
          (λ s. s.id == id)
          (supersede fresh.id now)
          (xs ++ successor_of hash cur now fresh ∷ []))
      ≤ 1
unfolding current_in is_current supersede successor_of count
rotate_found-le hash id f now fresh xs cur found live h =
    let new = successor_of hash cur now fresh in
    let both = count-append (current_in f) xs (new ∷ []) in
    let hit = find-append (λ s. s.id == id) xs (new ∷ []) cur found in
    let le =
      count-update-le (current_in f) (λ s. s.id == id) (supersede fresh.id now) (xs ++ new ∷ [])
        (λ s e. ground arith) in
    let drop =
      count-update_hit (current_in f) (λ s. s.id == id) (supersede fresh.id now) (xs ++ new ∷ [])
        cur (λ s. ground arith) hit in
    ground (arith, both, le, drop, h, live)

pub rotate_session-IsLinear :
    (hash : Text → Text) (id : ℕ) (now : Clock) (fresh : Fresh) (xs : List Session)
    → IsLinear xs
    → IsLinear (rotate_session hash id now fresh xs).1
unfolding rotate_session IsLinear is_current
rotate_session-IsLinear hash id now fresh xs h f = elim (Option-cases (find (λ s. s.id == id) xs)) [
  | inl e ↦ rw (rotate_session, e) (h f)
  | inr (cur, e) ↦ elim (Bool-cases (is_some cur.superseded_at || is_some cur.revoked_at)) [
    | inl late ↦ rw (rotate_session, e, late) (h f)
    | inr live ↦
        rw (rotate_session, e, live)
          (rotate_found-le hash id f now fresh xs cur e (ground (arith, live)) (h f))
  ]
]
