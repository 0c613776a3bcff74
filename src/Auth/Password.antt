-- ===== src/Auth/Password.antt =====
-- What `changePassword` of auth.service.ts leaves of the account and of its sessions.
use easygas_guide_server.Common.{
  ℕ, Bool, true, false, not, ◌&&◌, none, some, List, [], ◌∷◌, ◌++◌, ◌≡◌, refl, arith, inl, inr,
  update, Text, Option-cases, ◌==◌, count, is_some, All, count-update_same, ==-refl, sym, subst,
  find-update, find-true,
}
use easygas_guide_server.Sessions.{
  Session, Limits, Clock, Fresh, Meta, Created, Outcome, new_session, create_session,
  revoke_all_sessions, revoke_where, find_token, resolve_session,
}
use easygas_guide_server.Sessions.Runs.{Run, in_family}
use easygas_guide_server.Sessions.Caps.{Bound, Capped}
use easygas_guide_server.Sessions.Revocation.{
  IsDead, Revoked, Run-IsDead, IsDead-invalid, new_session-IsDead,
}
use easygas_guide_server.Auth.{
  Account, AuthDb, Changed, find_account, is_temp_expired, set_password, change_password,
}

revoke_rows-All :
    (f user cap now : ℕ) (xs : List Session)
    → All (Bound f user cap) xs
    → All (Revoked f) (revoke_all_sessions user now xs)
unfolding Bound Revoked revoke_all_sessions revoke_where in_family update
revoke_rows-All f user cap now [] h = tt
revoke_rows-All f user cap now (x ∷ xs) (h, hs) =
    (λ e. ground (arith, h, ==-refl user), revoke_rows-All f user cap now xs hs)

revoke_all-IsDead :
    (f user cap now : ℕ) (xs : List Session)
    → Capped f user cap xs
    → IsDead f (revoke_all_sessions user now xs)
unfolding Capped IsDead revoke_all_sessions revoke_where in_family
revoke_all-IsDead f user cap now xs (n, h) =
    let same =
      count-update_same (in_family f) (λ s. s.user_id == user && not (is_some s.revoked_at))
        (λ s. record s { revoked_at = some now }) xs (λ s. refl) in
    (rw same n, revoke_rows-All f user cap now xs h)

-- What the change asked for and what it wrote.
pub record Replaced (matches : Text → Text → Bool) (id : ℕ) (current new new_hash : Text)
    (now : Clock) (db after : AuthDb) : Type 0 where
  pub row : Account
  pub found : find_account id db ≡ some row
  pub unexpired : is_temp_expired now.js row ≡ false
  pub current_ok : matches current row.password_hash ≡ true
  pub differs : matches new row.password_hash ≡ false
  pub written :
      find_account id after
      ≡ some (record row {
        password_hash = new_hash;
        must_change_password = false;
        temp_password_expires_at = none;
      })

module _ (matches : Text → Text → Bool) (hash : Text → Text) (limits : Limits) (id : ℕ)
    (current new new_hash : Text) (meta : Meta) (now : Clock) (fresh : Fresh) (db : AuthDb)
    (created : Created) (after : AuthDb) where
  change_password-sessions :
      change_password matches hash limits id current new new_hash meta now fresh db
        ≡ Changed.changed created after
      → after.sessions
        ≡ revoke_all_sessions id now.db db.sessions
          ++ new_session hash limits id false meta now fresh ∷ []
  unfolding change_password set_password create_session
  change_password-sessions h = ground arith

  -- A change that succeeds had the current password of the account under its lock, whose temporary
  -- password is not out of date, and a new one that does not match it; the account then has the new
  -- hash and is free of the restriction.
  pub change_password-Replaced :
      change_password matches hash limits id current new new_hash meta now fresh db
        ≡ Changed.changed created after
      → Replaced matches id current new new_hash now db after
  unfolding change_password set_password find_account
  change_password-Replaced h = elim (Option-cases (find_account id db)) [
    | inl e ↦ absurd (let h' = rw (change_password, e) at h in ground arith)
    | inr (row, e) ↦
        let h' = rw (change_password, e) at h in
        let p : Account → Bool = λ a. a.id == id && not a.deleted in
        let w : Account → Account = λ a. record a {
          password_hash = new_hash;
          must_change_password = false;
          temp_password_expires_at = none;
        } in
        let accounts : after.accounts ≡ update (λ a. a.id == id) w db.accounts = ground arith in
        let hit = find-true p db.accounts row e in
        record {
          row = row;
          found = e;
          unexpired = ground arith;
          current_ok = ground arith;
          differs = ground arith;
          written =
              rw (accounts, find-update p (λ a. a.id == id) w db.accounts (λ a. refl), e)
                (ground (arith, hit));
        }
  ]

  -- A password change ends every session family of the account: whatever requests follow, no token of
  -- such a family resolves any more. The family is the account's, and the new session's id is new.
  pub change_password-ends_families :
      (family_id cap : ℕ)
      → Capped family_id id cap db.sessions
      → count (in_family fresh.id) (revoke_all_sessions id now.db db.sessions) ≡ 0
      → change_password matches hash limits id current new new_hash meta now fresh db
        ≡ Changed.changed created after
      → (later ys : List Session) (raw : Text) (s : Session) (clock : Clock) (next : Fresh)
      → Run hash limits after.sessions later
      → find_token hash raw later ≡ some s
      → s.family_id ≡ family_id
      → resolve_session hash limits (some raw) clock next later ys ≡ (Outcome.invalid, ys)
  change_password-ends_families family_id cap capped unused h later ys raw s clock next r k same =
      let dead =
        new_session-IsDead family_id hash limits id false meta now fresh _ unused
          (revoke_all-IsDead family_id id cap now.db db.sessions capped) in
      IsDead-invalid family_id hash limits raw clock next later ys s
        (Run-IsDead family_id hash limits after.sessions later
          (subst (IsDead family_id) (sym (change_password-sessions h)) dead) r)
        k same
