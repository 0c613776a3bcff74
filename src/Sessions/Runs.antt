-- ===== src/Sessions/Runs.antt =====
-- Sequences of requests to session.service.ts, in any order and by any users.
use easygas_guide_server.Common.{
  ℕ, Bool, not, ◌&&◌, Option, none, some, List, [], ◌∷◌, ◌++◌, ◌≡◌, arith, ◌==◌, count, find,
  update, is_some, Text, count-append, count-update-le, if_both, text_eq, count-mono, ==-eq,
}
use easygas_guide_server.Sessions.{
  Session, Limits, Clock, Fresh, Meta, new_session, create_session, revoke_where, revoke_family,
  revoke_all_sessions, revoke_by_token, revoke_found, rotate_session, touch, resolve_session,
  is_token,
}
use easygas_guide_server.Sessions.Family.{
  IsLinear, is_current, current_in, resolve_cases, rotate_session-IsLinear,
}

unfoldable pub in_family : ℕ → Session → Bool
in_family family_id s = s.family_id == family_id

-- A login takes a random id, which is no family's yet. A resolution may have read any table before.
pub data Run (hash : Text → Text) (limits : Limits) (start : List Session)
    : List Session → Type 0 where
  begins : Run hash limits start start
  creates :
      {xs : List Session} (user_id : ℕ) (remember_me : Bool) (meta : Meta) (now : Clock)
      (fresh : Fresh)
      → count (in_family fresh.id) xs ≡ 0
      → Run hash limits start xs
      → Run hash limits start (create_session hash limits user_id remember_me meta now fresh xs).1
  resolves :
      {xs : List Session} (raw : Option Text) (now : Clock) (fresh : Fresh) (before : List Session)
      → Run hash limits start xs
      → Run hash limits start (resolve_session hash limits raw now fresh before xs).1
  logs_out :
      {xs : List Session} (raw : Option Text) (now : ℕ)
      → Run hash limits start xs
      → Run hash limits start (revoke_by_token hash raw now xs).1
  revokes_all :
      {xs : List Session} (user_id now : ℕ)
      → Run hash limits start xs
      → Run hash limits start (revoke_all_sessions user_id now xs)

-- A property that the four kinds of write keep, at a login's new row, holds at the end.
pub record Kept {ℓ} (hash : Text → Text) (limits : Limits) (P : List Session → Type ℓ)
    : Type ℓ where
  pub adds :
      (user_id : ℕ) (remember_me : Bool) (meta : Meta) (now : Clock) (fresh : Fresh)
      (xs : List Session)
      → count (in_family fresh.id) xs ≡ 0
      → P xs
      → P (xs ++ new_session hash limits user_id remember_me meta now fresh ∷ [])
  pub touches :
      (id : ℕ) (now : Clock) (xs : List Session)
      → P xs
      → P (update (λ s. s.id == id) (touch now) xs)
  pub revokes :
      (p : Session → Bool) (now : ℕ) (xs : List Session) → P xs → P (revoke_where p now xs)
  pub rotates :
      (id : ℕ) (now : Clock) (fresh : Fresh) (xs : List Session)
      → P xs
      → P (rotate_session hash id now fresh xs).1

revoke_found-P {ℓ} :
    (P : List Session → Type ℓ) (row : Option Session) (now : ℕ) (xs : List Session)
    → P xs
    → ((f : ℕ) → P (revoke_family f now xs))
    → P (revoke_found row now xs).1
unfolding revoke_found
revoke_found-P P none now xs same revoked = same
revoke_found-P P (some row) now xs same revoked = revoked row.family_id

revoke_by_token-P {ℓ} :
    (P : List Session → Type ℓ) (hash : Text → Text) (raw : Option Text) (now : ℕ)
    (xs : List Session)
    → P xs
    → ((f : ℕ) → P (revoke_family f now xs))
    → P (revoke_by_token hash raw now xs).1
unfolding revoke_by_token
revoke_by_token-P P hash none now xs same revoked = same
revoke_by_token-P P hash (some raw) now xs same revoked =
    let row = find (λ s. text_eq s.token_hash (hash raw) && not (is_some s.revoked_at)) xs in
    if_both (λ (r : Option Session × List Session). P r.1) (is_token (some raw))
      (revoke_found row now xs) (none, xs) (revoke_found-P P row now xs same revoked) same

pub Run_induction {ℓ} :
    {hash : Text → Text} {limits : Limits} {P : List Session → Type ℓ} {start xs : List Session}
    → Kept hash limits P
    → P start
    → Run hash limits start xs
    → P xs
unfolding create_session revoke_all_sessions revoke_family
Run_induction k h begins = h
Run_induction k h (creates user_id remember_me meta now fresh new r) =
    k.adds user_id remember_me meta now fresh _ new (Run_induction k h r)
Run_induction {hash} {limits} {P} k h (resolves {xs} raw now fresh before r) =
    let p = Run_induction k h r in
    resolve_cases P hash limits now fresh xs raw before p (λ id. k.touches id now xs p)
      (λ f. k.revokes _ now.db xs p) (λ id. k.rotates id now fresh xs p)
Run_induction {hash} {limits} {P} k h (logs_out {xs} raw now r) =
    let p = Run_induction k h r in revoke_by_token-P P hash raw now xs p (λ f. k.revokes _ now xs p)
Run_induction k h (revokes_all {xs} user_id now r) = k.revokes _ now xs (Run_induction k h r)

new_session-IsLinear :
    (hash : Text → Text) (limits : Limits) (user_id : ℕ) (remember_me : Bool) (meta : Meta)
    (now : Clock) (fresh : Fresh) (xs : List Session)
    → count (in_family fresh.id) xs ≡ 0
    → IsLinear xs
    → IsLinear (xs ++ new_session hash limits user_id remember_me meta now fresh ∷ [])
unfolding IsLinear new_session count current_in is_current in_family
new_session-IsLinear hash limits user_id remember_me meta now fresh xs new h f =
    let row = new_session hash limits user_id remember_me meta now fresh in
    ground (
      arith,
      new,
      h f,
      count-append (current_in f) xs (row ∷ []),
      count-mono (current_in f) (in_family f) xs (λ s e. ground arith),
      ==-eq fresh.id f,
    )

revoke_where-IsLinear :
    (p : Session → Bool) (now : ℕ) (xs : List Session)
    → IsLinear xs
    → IsLinear (revoke_where p now xs)
unfolding IsLinear revoke_where current_in is_current
revoke_where-IsLinear p now xs h f = ground (
  arith,
  h f,
  count-update-le (current_in f) (λ s. p s && not (is_some s.revoked_at))
      (λ s. record s { revoked_at = some now }) xs (λ s e. ground arith),
)

touch-IsLinear :
    (id : ℕ) (now : Clock) (xs : List Session)
    → IsLinear xs
    → IsLinear (update (λ s. s.id == id) (touch now) xs)
unfolding IsLinear touch current_in is_current
touch-IsLinear id now xs h f = ground (
  arith,
  h f,
  count-update-le (current_in f) (λ s. s.id == id) (touch now) xs (λ s e. ground arith),
)

-- Logins, resolutions with their rotations, logouts and revocations in any order keep at most one
-- current session in every family, where each login's id is new.
pub Run-IsLinear :
    (hash : Text → Text) (limits : Limits) (start xs : List Session)
    → IsLinear start
    → Run hash limits start xs
    → IsLinear xs
Run-IsLinear hash limits start xs h r =
    Run_induction
      (record {
        adds = new_session-IsLinear hash limits;
        touches = touch-IsLinear;
        revokes = revoke_where-IsLinear;
        rotates = rotate_session-IsLinear hash;
      })
      h r
