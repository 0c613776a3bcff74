-- ===== src/Common/Sorting.antt =====
-- `.orderBy(key)`: rows that sort to the end, and selections of sorted rows.
use Prim.Native.Nat.{ℕ, ◌≤◌}
use mathlib.Core.Path.{◌≡◌, refl, sym}
use mathlib.Core.Bool.{Bool, true, false}
use mathlib.Core.List.{List, [], ◌∷◌, ◌++◌}
use mathlib.Core.Logic.{inl, inr}
use native.Mathlib.Omega.{arith}
use easygas_guide_server.Common.Tests.{Bool-cases, leb}
use easygas_guide_server.Common.Tables.{All, insert_on, sort_on, filter}

module _ {A : Type 0} (key : A → ℕ) where
  insert_on-last :
      (x y : A) (xs : List A)
      → key x ≤ key y
      → insert_on key x (xs ++ y ∷ []) ≡ insert_on key x xs ++ y ∷ []
  unfolding insert_on
  insert_on-last x y [] h = ground arith
  insert_on-last x y (z ∷ xs) h = ground (arith, insert_on-last x y xs h)

  All-insert_on {κ} :
      (P : A → Type κ) (x : A) (xs : List A) → All P (insert_on key x xs) → P x × All P xs
  unfolding insert_on
  All-insert_on P x [] h = h
  All-insert_on P x (z ∷ xs) h = elim (Bool-cases (leb (key x) (key z))) [
    | inl le ↦ rw le at h
    | inr gt ↦
        let (k, ks) = rw gt at h in let (px, rest) = All-insert_on P x xs ks in (px, (k, rest))
  ]

  -- A row whose key is not below the others sorts to the end.
  pub sort_on-last :
      (xs : List A) (y : A)
      → All (λ x. key x ≤ key y) (sort_on key xs)
      → sort_on key (xs ++ y ∷ []) ≡ sort_on key xs ++ y ∷ []
  unfolding sort_on insert_on
  sort_on-last [] y h = refl
  sort_on-last (x ∷ xs) y h =
      let (hx, hs) = All-insert_on (λ z. key z ≤ key y) x (sort_on key xs) h in
      rw (sort_on-last xs y hs) (insert_on-last x y (sort_on key xs) hx)

  insert_on-miss :
      (p : A → Bool) (x : A) (xs : List A)
      → p x ≡ false
      → filter p (insert_on key x xs) ≡ filter p xs
  unfolding insert_on filter
  insert_on-miss p x [] h = ground arith
  insert_on-miss p x (z ∷ xs) h = ground (arith, insert_on-miss p x xs h)

  -- A condition that holds of all larger keys once it holds.
  insert_on-hit :
      (p : A → Bool) (x : A) (xs : List A)
      → ((z : A) → key x ≤ key z → p z ≡ true)
      → p x ≡ true
      → filter p (insert_on key x xs) ≡ insert_on key x (filter p xs)
  unfolding insert_on filter
  insert_on-hit p x [] up h = ground arith
  insert_on-hit p x (z ∷ xs) up h = ground (arith, insert_on-hit p x xs up h, up z)

  -- Sorting the selected rows is selecting from the sorted rows, where the condition is upward closed.
  pub sort_on-filter :
      (p : A → Bool) (xs : List A)
      → ((x z : A) → p x ≡ true → key x ≤ key z → p z ≡ true)
      → sort_on key (filter p xs) ≡ filter p (sort_on key xs)
  unfolding sort_on filter
  sort_on-filter p [] up = refl
  sort_on-filter p (x ∷ xs) up = elim (Bool-cases (p x)) [
    | inl hit ↦
        rw (hit, sort_on-filter p xs up)
          (sym (insert_on-hit p x (sort_on key xs) (λ z le. up x z hit le) hit))
    | inr miss ↦ rw (miss, sort_on-filter p xs up) (sym (insert_on-miss p x (sort_on key xs) miss))
  ]

  insert_on-All {κ} :
      (P : A → Type κ) (x : A) (xs : List A) → P x → All P xs → All P (insert_on key x xs)
  unfolding insert_on
  insert_on-All P x [] h k = (h, tt)
  insert_on-All P x (z ∷ xs) h (k, ks) = elim (Bool-cases (leb (key x) (key z))) [
    | inl le ↦ rw le (h, (k, ks))
    | inr gt ↦ rw gt (k, insert_on-All P x xs h ks)
  ]

  pub sort_on-All {κ} : (P : A → Type κ) (xs : List A) → All P xs → All P (sort_on key xs)
  unfolding sort_on
  sort_on-All P [] h = tt
  sort_on-All P (x ∷ xs) (h, hs) = insert_on-All P x (sort_on key xs) h (sort_on-All P xs hs)
