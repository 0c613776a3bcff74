-- ===== src/Sessions/Revocation.antt =====
-- Revoked families under session.service.ts: a replay or a logout ends a family for good.
use easygas_guide_server.Common.{
  ℕ, ◌≤◌, Bool, true, not, ◌&&◌, ◌||◌, Option, none, some, List, [], ◌∷◌, ◌++◌, ◌≡◌, refl, arith,
  inl, inr, ◌==◌, count, find, update, is_some, Text, text_eq, Option-cases, Bool-cases, All,
  All-append, All-update, All-find, count-append, count-update_same, find-count, ==-eq, ==-refl,
  sym, subst,
}
use easygas_guide_server.Sessions.{
  Session, Limits, Clock, Fresh, Meta, new_session, revoke_where, revoke_family, revoke_found,
  revoke_by_token, rotate_session, touch, supersede, successor_of, resolve_session, find_token,
  Outcome,
}
use easygas_guide_server.Sessions.Runs.{Run, Run_induction, in_family}

unfoldable pub Revoked : ℕ → Session → Type 0
Revoked family_id s = in_family family_id s ≡ true → is_some s.revoked_at ≡ true

-- The family is there, and all its sessions are revoked.
unfoldable pub IsDead : ℕ → List Session → Type 0
IsDead family_id xs = (1 ≤ count (in_family family_id) xs) × All (Revoked family_id) xs

revoke_family-All : (f now : ℕ) (xs : List Session) → All (Revoked f) (revoke_family f now xs)
unfolding Revoked revoke_family revoke_where in_family update
revoke_family-All f now [] = tt
revoke_family-All f now (x ∷ xs) = (λ e. ground arith, revoke_family-All f now xs)

revoke_family-IsDead :
    (f now : ℕ) (xs : List Session) → 1 ≤ count (in_family f) xs → IsDead f (revoke_family f now xs)
unfolding IsDead revoke_family revoke_where in_family
revoke_family-IsDead f now xs h =
    let same =
      count-update_same (in_family f) (λ s. s.family_id == f && not (is_some s.revoked_at))
        (λ s. record s { revoked_at = some now }) xs (λ s. refl) in
    (rw same h, revoke_family-All f now xs)

module _ (f : ℕ) where
  update-IsDead :
      (q : Session → Bool) (w : Session → Session) (xs : List Session)
      → ((s : Session) → in_family f (w s) ≡ in_family f s)
      → ((s : Session) → Revoked f s → Revoked f (w s))
      → IsDead f xs
      → IsDead f (update q w xs)
  unfolding IsDead
  update-IsDead q w xs same keep (n, h) = (
    ground (arith, n, count-update_same (in_family f) q w xs same),
    All-update (Revoked f) q w xs keep h,
  )

  append-IsDead :
      (s : Session) (xs : List Session) → Revoked f s → IsDead f xs → IsDead f (xs ++ s ∷ [])
  unfolding IsDead
  append-IsDead s xs b (n, h) = (
    ground (arith, n, count-append (in_family f) xs (s ∷ [])),
    All-append (Revoked f) xs (s ∷ []) h (b, tt),
  )

  rotate_session-IsDead :
      (hash : Text → Text) (id : ℕ) (now : Clock) (fresh : Fresh) (xs : List Session)
      → IsDead f xs
      → IsDead f (rotate_session hash id now fresh xs).1
  unfolding Revoked IsDead supersede successor_of in_family rotate_session
  rotate_session-IsDead hash id now fresh xs h = elim (Option-cases (find (λ s. s.id == id) xs)) [
    | inl e ↦ rw (rotate_session, e) h
    | inr (cur, e) ↦ elim (Bool-cases (is_some cur.superseded_at || is_some cur.revoked_at)) [
      | inl late ↦ rw (rotate_session, e, late) h
      | inr live ↦
          rw (rotate_session, e, live)
            (update-IsDead (λ s. s.id == id) (supersede fresh.id now)
              (xs ++ successor_of hash cur now fresh ∷ []) (λ s. refl) (λ s b. b)
              (append-IsDead (successor_of hash cur now fresh) xs
                (λ k.
                  absurd
                    (ground (arith, live, All-find (Revoked f) (λ s. s.id == id) xs cur h.1 e k)))
                h))
    ]
  ]

  pub new_session-IsDead :
      (hash : Text → Text) (limits : Limits) (user : ℕ) (remember : Bool) (meta : Meta)
      (now : Clock) (fresh : Fresh) (xs : List Session)
      → count (in_family fresh.id) xs ≡ 0
      → IsDead f xs
      → IsDead f (xs ++ new_session hash limits user remember meta now fresh ∷ [])
  unfolding Revoked IsDead new_session in_family
  new_session-IsDead hash limits user remember meta now fresh xs new h =
      append-IsDead (new_session hash limits user remember meta now fresh) xs
        (λ e. absurd (ground (arith, ==-eq fresh.id f e, new, h.0))) h

  touch-IsDead :
      (id : ℕ) (now : Clock) (xs : List Session)
      → IsDead f xs
      → IsDead f (update (λ s. s.id == id) (touch now) xs)
  unfolding Revoked touch in_family
  touch-IsDead id now xs h = update-IsDead (λ s. s.id == id) (touch now) xs (λ s. refl) (λ s b. b) h

  revoke_where-IsDead :
      (p : Session → Bool) (now : ℕ) (xs : List Session)
      → IsDead f xs
      → IsDead f (revoke_where p now xs)
  unfolding Revoked revoke_where in_family
  revoke_where-IsDead p now xs h =
      update-IsDead (λ s. p s && not (is_some s.revoked_at))
        (λ s. record s { revoked_at = some now }) xs (λ s. refl) (λ s b e. refl) h

  pub Run-IsDead :
      (hash : Text → Text) (limits : Limits) (start xs : List Session)
      → IsDead f start
      → Run hash limits start xs
      → IsDead f xs
  Run-IsDead hash limits start xs h r =
      Run_induction
        (record {
          adds = new_session-IsDead hash limits;
          touches = touch-IsDead;
          revokes = revoke_where-IsDead;
          rotates = rotate_session-IsDead hash;
        })
        h r

  -- No token of a dead family resolves.
  pub IsDead-invalid :
      (hash : Text → Text) (limits : Limits) (raw : Text) (now : Clock) (fresh : Fresh)
      (xs ys : List Session) (s : Session)
      → IsDead f xs
      → find_token hash raw xs ≡ some s
      → s.family_id ≡ f
      → resolve_session hash limits (some raw) now fresh xs ys ≡ (Outcome.invalid, ys)
  unfolding IsDead resolve_session Revoked in_family find_token
  IsDead-invalid hash limits raw now fresh xs ys s h e k =
      let dead = All-find (Revoked f) (λ x. text_eq x.token_hash (hash raw)) xs s h.1 e in
      ground (arith, dead, ==-refl f)

revoke_by_token-revokes :
    (hash : Text → Text) (raw : Option Text) (now : ℕ) (sessions after : List Session)
    (row : Session)
    → revoke_by_token hash raw now sessions ≡ (some row, after)
    → (1 ≤ count (in_family row.family_id) sessions)
      × (after ≡ revoke_family row.family_id now sessions)
unfolding revoke_by_token revoke_found in_family
revoke_by_token-revokes hash none now sessions after row h = absurd (ground arith)
revoke_by_token-revokes hash (some raw) now sessions after row h =
    elim (Option-cases
      (find (λ s. text_eq s.token_hash (hash raw) && not (is_some s.revoked_at)) sessions)) [
        | inl e ↦ absurd (let h' = rw (revoke_by_token, e) at h in ground arith)
        | inr (x, e) ↦
            let h' = rw (revoke_by_token, e) at h in
            let n =
              find-count (λ s. text_eq s.token_hash (hash raw) && not (is_some s.revoked_at))
                (in_family x.family_id) sessions x e (==-refl x.family_id) in
            let same : x ≡ row = ground arith in
            let left : after ≡ revoke_family x.family_id now sessions = ground arith in
            subst
              (λ r.
                (1 ≤ count (in_family r.family_id) sessions)
                × (after ≡ revoke_family r.family_id now sessions))
              same (n, left)
      ]

-- A logout that finds a session revokes its whole family: whatever requests follow, no token of that
-- family resolves any more, the rotated-out ones within their grace included.
pub revoke_by_token-ends_family :
    (hash : Text → Text) (limits : Limits) (raw : Option Text) (now : ℕ)
    (sessions after : List Session) (row : Session)
    → revoke_by_token hash raw now sessions ≡ (some row, after)
    → (later ys : List Session) (other : Text) (s : Session) (later_clock : Clock) (next : Fresh)
    → Run hash limits after later
    → find_token hash other later ≡ some s
    → s.family_id ≡ row.family_id
    → resolve_session hash limits (some other) later_clock next later ys ≡ (Outcome.invalid, ys)
revoke_by_token-ends_family hash limits raw now sessions after row h later ys other s later_clock
      next r k same =
    let (n, e) = revoke_by_token-revokes hash raw now sessions after row h in
    let dead =
      subst (IsDead row.family_id) (sym e) (revoke_family-IsDead row.family_id now sessions n) in
    IsDead-invalid row.family_id hash limits other later_clock next later ys s
      (Run-IsDead row.family_id hash limits after later dead r) k same
