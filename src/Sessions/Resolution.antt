-- ===== src/Sessions/Resolution.antt =====
-- What `resolveSession` of session.service.ts accepts, and what it hands out.
use easygas_guide_server.Common.{
  ℕ, ◌-◌, ◌≤◌, ◌<◌, ◌||◌, Option, none, some, List, ◌≡◌, arith, inl, inr, ◌==◌, ltb, find, is_some,
  Text, Option-cases, Bool-cases,
}
use easygas_guide_server.Sessions.{
  Session, Limits, Clock, Fresh, rotate_session, successor_of, resolve_session, resolve_row,
  resolve_current, rotated_outcome, rotated_of, find_token, is_token, is_expired, Outcome, Rotated,
  idle_ms, grace_ms, rotate_ms,
}

-- The session is the row itself, or the successor of the row that was current under the lock.
pub data Served (hash : Text → Text) (limits : Limits) (now : Clock) (fresh : Fresh)
    (sessions : List Session) (row s : Session) (rot : Option Rotated) : Type 0 where
  itself : s ≡ row → rot ≡ none → Served hash limits now fresh sessions row s rot
  rotated :
      (cur : Session)
      → find (λ x. x.id == row.id) sessions ≡ some cur
      → cur.superseded_at ≡ none
      → cur.revoked_at ≡ none
      → rotate_ms limits < now.js - row.created_at
      → s ≡ successor_of hash cur now fresh
      → rot ≡ some (rotated_of fresh.token s)
      → Served hash limits now fresh sessions row s rot

-- The row that was read, and the caps that it met.
pub record Accepted (hash : Text → Text) (limits : Limits) (raw : Text) (now : Clock)
    (fresh : Fresh) (before sessions : List Session) (s : Session) (rot : Option Rotated)
    : Type 0 where
  pub row : Session
  pub found : find_token hash raw before ≡ some row
  pub unrevoked : row.revoked_at ≡ none
  pub in_time : now.js < row.absolute_expires_at
  pub not_idle : now.js - row.last_used_at ≤ idle_ms limits
  pub in_grace : (at : ℕ) → row.superseded_at ≡ some at → now.js - at ≤ grace_ms limits
  pub served : Served hash limits now fresh sessions row s rot

module _ (hash : Text → Text) (limits : Limits) (now : Clock) (fresh : Fresh)
    (sessions : List Session) (s : Session) (rot : Option Rotated) (after : List Session) where
  rotated_outcome-Served :
      (row : Session)
      → rotate_ms limits < now.js - row.created_at
      → rotated_outcome row fresh.token (rotate_session hash row.id now fresh sessions)
        ≡ (Outcome.resolved s rot, after)
      → Served hash limits now fresh sessions row s rot
  unfolding rotated_outcome rotate_session
  rotated_outcome-Served row due h = elim (Option-cases (find (λ x. x.id == row.id) sessions)) [
    | inl e ↦ let h' = rw (rotate_session, e) at h in itself (ground arith) (ground arith)
    | inr (cur, e) ↦ elim (Bool-cases (is_some cur.superseded_at || is_some cur.revoked_at)) [
      | inl late ↦
          let h' = rw (rotate_session, e, late) at h in itself (ground arith) (ground arith)
      | inr live ↦
          let h' = rw (rotate_session, e, live) at h in
          rotated cur e (ground arith) (ground arith) due (ground arith) (ground arith)
    ]
  ]

  resolve_current-Served :
      (row : Session)
      → resolve_current hash limits row now fresh sessions ≡ (Outcome.resolved s rot, after)
      → Served hash limits now fresh sessions row s rot
  unfolding resolve_current
  resolve_current-Served row h =
      elim (Bool-cases (ltb (rotate_ms limits) (now.js - row.created_at))) [
        | inl due ↦ rotated_outcome-Served row (ground arith) (rw (resolve_current, due) at h)
        | inr recent ↦ itself (ground arith) (ground arith)
      ]

  resolve_row-Served :
      (superseded : Option ℕ) (row : Session)
      → resolve_row hash limits superseded row now fresh sessions ≡ (Outcome.resolved s rot, after)
      → ((at : ℕ) → superseded ≡ some at → now.js - at ≤ grace_ms limits)
        × Served hash limits now fresh sessions row s rot
  unfolding resolve_row
  resolve_row-Served none row h = (λ at e. absurd (ground arith), resolve_current-Served row h)
  resolve_row-Served (some at) row h = (λ at' e. ground arith, itself (ground arith) (ground arith))

  -- A resolved token is the token of a stored session that is neither revoked nor past its absolute
  -- or idle limit, nor past its grace where it was rotated out; the session handed out is that
  -- session, or the successor of it that was inserted under its lock while it was current.
  pub resolve_session-Accepted :
      (raw : Text) (before : List Session)
      → resolve_session hash limits (some raw) now fresh before sessions
        ≡ (Outcome.resolved s rot, after)
      → Accepted hash limits raw now fresh before sessions s rot
  unfolding resolve_session is_expired
  resolve_session-Accepted raw before h = elim (Bool-cases (is_token (some raw))) [
    | inr bad ↦ absurd (let h' = rw (resolve_session, bad) at h in ground arith)
    | inl good ↦ elim (Option-cases (find_token hash raw before)) [
      | inl e ↦ absurd (let h' = rw (resolve_session, good, e) at h in ground arith)
      | inr (row, e) ↦ elim (Bool-cases (is_some row.revoked_at || is_expired limits now row)) [
        | inl bad ↦ absurd (let h' = rw (resolve_session, good, e, bad) at h in ground arith)
        | inr fine ↦
            let (grace, served) =
              resolve_row-Served row.superseded_at row (rw (resolve_session, good, e, fine) at h) in
            record {
              row = row;
              found = e;
              unrevoked = ground arith;
              in_time = ground arith;
              not_idle = ground arith;
              in_grace = grace;
              served = served;
            }
      ]
    ]
  ]
