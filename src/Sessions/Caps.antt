-- ===== src/Sessions/Caps.antt =====
-- The identity of a session family under session.service.ts: its user and its absolute expiry, which
-- a rotation copies.
use easygas_guide_server.Common.{
  ℕ, ◌≤◌, Bool, true, not, ◌&&◌, ◌||◌, some, List, [], ◌∷◌, ◌++◌, ◌≡◌, refl, arith, inl, inr, ◌==◌,
  count, find, update, is_some, Text, Option-cases, Bool-cases, All, All-append, All-update,
  All-find, count-append, count-update_same, ==-eq,
}
use easygas_guide_server.Sessions.{
  Session, Limits, Clock, Fresh, Meta, new_session, revoke_where, rotate_session, touch, supersede,
  successor_of,
}
use easygas_guide_server.Sessions.Runs.{Run, Run_induction, in_family}

-- A row of the family is the user's and ends at the cap.
unfoldable pub Bound : ℕ → ℕ → ℕ → Session → Type 0
Bound family_id user_id cap s =
    in_family family_id s ≡ true → (s.user_id ≡ user_id) × (s.absolute_expires_at ≡ cap)

-- The family is there, and all its rows are the user's and end at the cap.
unfoldable pub Capped : ℕ → ℕ → ℕ → List Session → Type 0
Capped family_id user_id cap xs =
    (1 ≤ count (in_family family_id) xs) × All (Bound family_id user_id cap) xs

module _ (f u c : ℕ) where
  update-Capped :
      (q : Session → Bool) (w : Session → Session) (xs : List Session)
      → ((s : Session) → in_family f (w s) ≡ in_family f s)
      → ((s : Session) → Bound f u c s → Bound f u c (w s))
      → Capped f u c xs
      → Capped f u c (update q w xs)
  unfolding Capped
  update-Capped q w xs same keep (n, h) = (
    ground (arith, n, count-update_same (in_family f) q w xs same),
    All-update (Bound f u c) q w xs keep h,
  )

  append-Capped :
      (s : Session) (xs : List Session)
      → Bound f u c s
      → Capped f u c xs
      → Capped f u c (xs ++ s ∷ [])
  unfolding Capped
  append-Capped s xs b (n, h) = (
    ground (arith, n, count-append (in_family f) xs (s ∷ [])),
    All-append (Bound f u c) xs (s ∷ []) h (b, tt),
  )

  rotate_session-Capped :
      (hash : Text → Text) (id : ℕ) (now : Clock) (fresh : Fresh) (xs : List Session)
      → Capped f u c xs
      → Capped f u c (rotate_session hash id now fresh xs).1
  unfolding Bound Capped supersede successor_of in_family rotate_session
  rotate_session-Capped hash id now fresh xs h = elim (Option-cases (find (λ s. s.id == id) xs)) [
    | inl e ↦ rw (rotate_session, e) h
    | inr (cur, e) ↦ elim (Bool-cases (is_some cur.superseded_at || is_some cur.revoked_at)) [
      | inl late ↦ rw (rotate_session, e, late) h
      | inr live ↦
          rw (rotate_session, e, live)
            (update-Capped (λ s. s.id == id) (supersede fresh.id now)
              (xs ++ successor_of hash cur now fresh ∷ []) (λ s. refl) (λ s b. b)
              (append-Capped (successor_of hash cur now fresh) xs
                (All-find (Bound f u c) (λ s. s.id == id) xs cur h.1 e) h))
    ]
  ]

  new_session-Capped :
      (hash : Text → Text) (limits : Limits) (user : ℕ) (remember : Bool) (meta : Meta)
      (now : Clock) (fresh : Fresh) (xs : List Session)
      → count (in_family fresh.id) xs ≡ 0
      → Capped f u c xs
      → Capped f u c (xs ++ new_session hash limits user remember meta now fresh ∷ [])
  unfolding Bound Capped new_session in_family
  new_session-Capped hash limits user remember meta now fresh xs new h =
      append-Capped (new_session hash limits user remember meta now fresh) xs
        (λ e. absurd (ground (arith, ==-eq fresh.id f e, new, h.0))) h

  touch-Capped :
      (id : ℕ) (now : Clock) (xs : List Session)
      → Capped f u c xs
      → Capped f u c (update (λ s. s.id == id) (touch now) xs)
  unfolding Bound touch in_family
  touch-Capped id now xs h = update-Capped (λ s. s.id == id) (touch now) xs (λ s. refl) (λ s b. b) h

  revoke_where-Capped :
      (p : Session → Bool) (now : ℕ) (xs : List Session)
      → Capped f u c xs
      → Capped f u c (revoke_where p now xs)
  unfolding Bound revoke_where in_family
  revoke_where-Capped p now xs h =
      update-Capped (λ s. p s && not (is_some s.revoked_at))
        (λ s. record s { revoked_at = some now }) xs (λ s. refl) (λ s b. b) h

  -- Every sequence of requests keeps the user and the absolute expiry of a family that is there: no
  -- rotation extends them, and no login joins the family.
  pub Run-Capped :
      (hash : Text → Text) (limits : Limits) (start xs : List Session)
      → Capped f u c start
      → Run hash limits start xs
      → Capped f u c xs
  Run-Capped hash limits start xs h r =
      Run_induction
        (record {
          adds = new_session-Capped hash limits;
          touches = touch-Capped;
          revokes = revoke_where-Capped;
          rotates = rotate_session-Capped hash;
        })
        h r
