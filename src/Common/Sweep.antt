-- ===== src/Common/Sweep.antt =====
-- Loops that read the rows of a condition once and then write each of them by its id.
use Prim.Native.Nat.{ℕ}
use mathlib.Core.Path.{◌≡◌, sym, subst}
use mathlib.Core.Logic.{inl, inr}
use mathlib.Core.Bool.{Bool, true, false}
use mathlib.Core.List.{List, [], ◌∷◌}
use native.Mathlib.Omega.{arith}
use easygas_guide_server.Common.Tests.{◌==◌, Bool-cases, ==-refl}
use easygas_guide_server.Common.Tables.{All, any, filter, update}

module _ {A : Type 0} (id : A → ℕ) (p : A → Bool) where
  -- The ids of all rows of the condition are among those of a list.
  unfoldable pub Listed : List A → List A → Type 0
  unfolding any
  Listed rs = All (λ x. p x ≡ true → any (λ r. id r == id x) rs ≡ true)

  -- After the row with the first id is written so that it leaves the condition, the rest remains.
  pub Listed-update :
      (f : A → A) (r : A) (rs xs : List A)
      → ((x : A) → p (f x) ≡ false)
      → Listed (r ∷ rs) xs
      → Listed rs (update (λ x. id x == id r) f xs)
  unfolding Listed update any
  Listed-update f r rs [] leaves h = tt
  Listed-update f r rs (x ∷ xs) leaves h = (
    elim (Bool-cases (id x == id r)) [
      | inl hit ↦ rw hit (λ k. absurd (ground (arith, leaves x)))
      | inr other ↦ rw other (λ k. later x other (h.0 k))
    ],
    Listed-update f r rs xs leaves h.1,
  )
    where
      later :
          (x : A)
          → (id x == id r) ≡ false
          → any (λ y. id y == id x) (r ∷ rs) ≡ true
          → any (λ y. id y == id x) rs ≡ true
      later x other k = ground arith

  -- Nothing is left of the condition where no id remains.
  pub Listed-none : (xs : List A) → Listed [] xs → All (λ x. p x ≡ false) xs
  unfolding Listed any
  Listed-none [] h = tt
  Listed-none (x ∷ xs) h = (ground (arith, h.0), Listed-none xs h.1)

  Listed-cons : (r : A) (rs xs : List A) → Listed rs xs → Listed (r ∷ rs) xs
  unfolding Listed any
  Listed-cons r rs [] h = tt
  Listed-cons r rs (x ∷ xs) h = (λ k. ground (arith, h.0 k), Listed-cons r rs xs h.1)

  filter-hit : (x : A) (xs : List A) → p x ≡ true → filter p (x ∷ xs) ≡ x ∷ filter p xs
  unfolding filter
  filter-hit x xs h = ground arith

  filter-miss : (x : A) (xs : List A) → p x ≡ false → filter p (x ∷ xs) ≡ filter p xs
  unfolding filter
  filter-miss x xs h = ground arith

  head-listed : (x : A) (rs : List A) → any (λ r. id r == id x) (x ∷ rs) ≡ true
  unfolding any
  head-listed x rs = ground (arith, ==-refl (id x))

  -- The selected rows list the condition.
  pub Listed-filter : (xs : List A) → Listed (filter p xs) xs
  unfolding Listed
  Listed-filter [] = tt
  Listed-filter (x ∷ xs) = elim (Bool-cases (p x)) [
    | inl hit ↦
        subst (λ rs. Listed rs (x ∷ xs)) (sym (filter-hit x xs hit))
          (λ k. head-listed x (filter p xs), Listed-cons x (filter p xs) xs (Listed-filter xs))
    | inr miss ↦
        subst (λ rs. Listed rs (x ∷ xs)) (sym (filter-miss x xs miss))
          (λ k. absurd (ground arith), Listed-filter xs)
  ]
