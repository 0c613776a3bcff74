-- ===== src/Common/Tables.antt =====
-- A table is the list of its rows. The query builder's `where`, `first`, `count` and `update`.
use Prim.Native.Nat.{ℕ, suc}
use mathlib.Core.Path.{◌≡◌, refl, subst}
use mathlib.Core.Bool.{Bool, true, false, ◌||◌}
use mathlib.Core.Option
use mathlib.Core.Option.{Option, none, some}
use mathlib.Core.List.{List, [], ◌∷◌, ◌++◌}
use mathlib.Core.Logic.{inl, inr}
use native.Mathlib.Omega.{arith}
use easygas_guide_server.Common.Tests.{some-eq, Bool-cases, leb, if◌then◌else◌}

module _ {ℓ} {A : Type ℓ} where
  abbrev pub length : List A → ℕ
  length [] = 0
  length (x ∷ xs) = suc (length xs)

  -- `.where(p).first()`
  unfoldable pub find : (A → Bool) → List A → Option A
  find p [] = none
  find p (x ∷ xs) = if p x then some x else find p xs

  -- `.where(p)`
  unfoldable pub filter : (A → Bool) → List A → List A
  filter p [] = []
  filter p (x ∷ xs) = let rest = filter p xs in if p x then x ∷ rest else rest

  -- `.where(p).count()`
  unfoldable pub count : (A → Bool) → List A → ℕ
  count p [] = 0
  count p (x ∷ xs) = let rest = count p xs in if p x then suc rest else rest

  -- `.where(p).update(f)`
  unfoldable pub update : (A → Bool) → (A → A) → List A → List A
  update p f [] = []
  update p f (x ∷ xs) = (if p x then f x else x) ∷ update p f xs

  -- `.some(p)`
  unfoldable pub any : (A → Bool) → List A → Bool
  any p [] = false
  any p (x ∷ xs) = p x || any p xs

  unfoldable pub insert_on : (A → ℕ) → A → List A → List A
  insert_on key x [] = x ∷ []
  insert_on key x (y ∷ ys) =
      let rest = insert_on key x ys in if leb (key x) (key y) then x ∷ y ∷ ys else y ∷ rest

  -- `.orderBy(key)`, which keeps the order of rows with one key.
  unfoldable pub sort_on : (A → ℕ) → List A → List A
  unfolding insert_on
  sort_on key [] = []
  sort_on key (x ∷ xs) = insert_on key x (sort_on key xs)

  -- Every row satisfies a predicate.
  abbrev pub All {κ} : (A → Type κ) → List A → Type κ
  All P [] = Unit
  All P (x ∷ xs) = P x × All P xs

  -- What is found satisfies the condition.
  pub find-true : (p : A → Bool) (xs : List A) (x : A) → find p xs ≡ some x → p x ≡ true
  unfolding find
  find-true p [] x h = ground arith
  find-true p (y ∷ xs) x h = ground (arith, find-true p xs x)

  -- An update that keeps the searched condition is seen at the row that is found.
  pub find-update :
      (p q : A → Bool) (f : A → A) (xs : List A)
      → ((x : A) → p (f x) ≡ p x)
      → find p (update q f xs) ≡ Option.map (λ x. if q x then f x else x) (find p xs)
  unfolding find update
  find-update p q f [] keep = refl
  find-update p q f (x ∷ xs) keep = ground (arith, keep x, find-update p q f xs keep)

  pub filter-update :
      (p q : A → Bool) (f : A → A) (xs : List A)
      → ((x : A) → p (f x) ≡ p x)
      → filter p (update q f xs) ≡ update q f (filter p xs)
  unfolding filter update
  filter-update p q f [] keep = refl
  filter-update p q f (x ∷ xs) keep = ground (arith, keep x, filter-update p q f xs keep)

  -- No row matches where nothing is found.
  pub find-none-All : (p : A → Bool) (xs : List A) → find p xs ≡ none → All (λ x. p x ≡ false) xs
  unfolding find
  find-none-All p [] h = tt
  find-none-All p (x ∷ xs) h = ground (arith, find-none-All p xs)

  pub count-zero-All : (p : A → Bool) (xs : List A) → count p xs ≡ 0 → All (λ x. p x ≡ false) xs
  unfolding count
  count-zero-All p [] h = tt
  count-zero-All p (x ∷ xs) h = ground (arith, count-zero-All p xs)

  pub All-count-zero : (p : A → Bool) (xs : List A) → All (λ x. p x ≡ false) xs → count p xs ≡ 0
  unfolding count
  All-count-zero p [] h = refl
  All-count-zero p (x ∷ xs) h = ground (arith, All-count-zero p xs)

  pub All-update {κ} :
      (P : A → Type κ) (q : A → Bool) (f : A → A) (xs : List A)
      → ((x : A) → P x → P (f x))
      → All P xs
      → All P (update q f xs)
  unfolding update
  All-update P q f [] keep h = tt
  All-update P q f (x ∷ xs) keep h = (ground (arith, keep x, h.0), All-update P q f xs keep h.1)

  pub All-append {κ} : (P : A → Type κ) (xs ys : List A) → All P xs → All P ys → All P (xs ++ ys)
  All-append P [] ys h k = k
  All-append P (x ∷ xs) ys h k = (h.0, All-append P xs ys h.1 k)

  pub count-append :
      (p : A → Bool) (xs ys : List A)
      → count p (xs ++ ys) ≡ Prim.Native.Nat.◌+◌ (count p xs) (count p ys)
  unfolding count
  count-append p [] ys = ground arith
  count-append p (x ∷ xs) ys = ground (arith, count-append p xs ys)

  -- What holds of all rows holds of the row that is found.
  pub All-find {κ} :
      (P : A → Type κ) (p : A → Bool) (xs : List A) (x : A) → All P xs → find p xs ≡ some x → P x
  unfolding find
  All-find P p [] x h k = absurd (ground arith)
  All-find P p (y ∷ ys) x h k = elim (Bool-cases (p y)) [
    | inl hit ↦ subst P (some-eq _ y x (rw hit refl) k) h.0
    | inr miss ↦ All-find P p ys x h.1 (rw miss at k)
  ]

  -- An update that never makes the condition true does not raise the count.
  pub count-update-le :
      (q p : A → Bool) (f : A → A) (xs : List A)
      → ((x : A) → q (f x) ≡ true → q x ≡ true)
      → Prim.Native.Nat.◌≤◌ (count q (update p f xs)) (count q xs)
  unfolding count update
  count-update-le q p f [] keep = ground arith
  count-update-le q p f (x ∷ xs) keep = ground (arith, keep x, count-update-le q p f xs keep)

  -- It lowers the count where it makes the condition false at a row that is hit.
  pub count-update_hit :
      (q p : A → Bool) (f : A → A) (xs : List A) (x : A)
      → ((y : A) → q (f y) ≡ false)
      → find p xs ≡ some x
      → q x ≡ true
      → Prim.Native.Nat.◌<◌ (count q (update p f xs)) (count q xs)
  unfolding count update find
  count-update_hit q p f [] x drop h k = ground arith
  count-update_hit q p f (y ∷ xs) x drop h k =
      let le = count-update-le q p f xs (λ z e. absurd (ground (arith, drop z))) in
      ground (arith, drop y, le, count-update_hit q p f xs x drop)

  pub find-append :
      (p : A → Bool) (xs ys : List A) (x : A) → find p xs ≡ some x → find p (xs ++ ys) ≡ some x
  unfolding find
  find-append p [] ys x h = ground arith
  find-append p (y ∷ xs) ys x h = ground (arith, find-append p xs ys x)

  pub count-mono :
      (p q : A → Bool) (xs : List A)
      → ((x : A) → p x ≡ true → q x ≡ true)
      → Prim.Native.Nat.◌≤◌ (count p xs) (count q xs)
  unfolding count
  count-mono p q [] keep = ground arith
  count-mono p q (x ∷ xs) keep = ground (arith, keep x, count-mono p q xs keep)

  pub count-update_same :
      (p q : A → Bool) (f : A → A) (xs : List A)
      → ((x : A) → p (f x) ≡ p x)
      → count p (update q f xs) ≡ count p xs
  unfolding count update
  count-update_same p q f [] keep = refl
  count-update_same p q f (x ∷ xs) keep = ground (arith, keep x, count-update_same p q f xs keep)

  -- A row that is found counts for whatever it satisfies.
  pub find-count :
      (p q : A → Bool) (xs : List A) (x : A)
      → find p xs ≡ some x
      → q x ≡ true
      → Prim.Native.Nat.◌≤◌ 1 (count q xs)
  unfolding count find
  find-count p q [] x h k = ground arith
  find-count p q (y ∷ xs) x h k = ground (arith, find-count p q xs x)

  -- No row is left of a condition where the update of its rows makes it false.
  pub count-update_none :
      (p : A → Bool) (f : A → A) (xs : List A)
      → ((x : A) → p (f x) ≡ false)
      → count p (update p f xs) ≡ 0
  unfolding count update
  count-update_none p f [] drop = refl
  count-update_none p f (x ∷ xs) drop = ground (arith, drop x, count-update_none p f xs drop)

  -- A count is kept by an update that keeps its condition at the rows that it hits.
  pub count-update_hits :
      (p q : A → Bool) (f : A → A) (xs : List A)
      → ((x : A) → q x ≡ true → p (f x) ≡ p x)
      → count p (update q f xs) ≡ count p xs
  unfolding count update
  count-update_hits p q f [] keep = refl
  count-update_hits p q f (x ∷ xs) keep = ground (arith, keep x, count-update_hits p q f xs keep)

  pub count-zero-find : (p : A → Bool) (xs : List A) → count p xs ≡ 0 → find p xs ≡ none
  unfolding count find
  count-zero-find p [] h = refl
  count-zero-find p (x ∷ xs) h = ground (arith, count-zero-find p xs)

  pub find-append_none :
      (p : A → Bool) (xs ys : List A) → find p xs ≡ none → find p (xs ++ ys) ≡ find p ys
  unfolding find
  find-append_none p [] ys h = refl
  find-append_none p (x ∷ xs) ys h = ground (arith, find-append_none p xs ys)

  pub update-append :
      (p : A → Bool) (f : A → A) (xs ys : List A)
      → update p f (xs ++ ys) ≡ update p f xs ++ update p f ys
  unfolding update
  update-append p f [] ys = refl
  update-append p f (x ∷ xs) ys = ground (arith, update-append p f xs ys)

  -- Where a narrower condition counts as many rows, it holds wherever the wider one does.
  pub count-eq-All :
      (p q : A → Bool) (xs : List A)
      → ((x : A) → p x ≡ true → q x ≡ true)
      → Prim.Native.Nat.◌≤◌ (count q xs) (count p xs)
      → All (λ x. q x ≡ true → p x ≡ true) xs
  unfolding count
  count-eq-All p q [] keep h = tt
  count-eq-All p q (x ∷ xs) keep h =
      let le = count-mono p q xs keep in
      (λ k. ground (arith, keep x), count-eq-All p q xs keep (ground (arith, keep x)))

  pub All-update_hits {κ} :
      (P : A → Type κ) (q : A → Bool) (f : A → A) (xs : List A)
      → ((x : A) → q x ≡ true → P x → P (f x))
      → All P xs
      → All P (update q f xs)
  unfolding update
  All-update_hits P q f [] keep h = tt
  All-update_hits P q f (x ∷ xs) keep h = (
    elim (Bool-cases (q x)) [ inl hit ↦ rw hit (keep x hit h.0) | inr miss ↦ rw miss h.0 ],
    All-update_hits P q f xs keep h.1,
  )

  pub All-imp {κ μ} :
      (P : A → Type κ) (Q : A → Type μ) (xs : List A) → ((x : A) → P x → Q x) → All P xs → All Q xs
  All-imp P Q [] f h = tt
  All-imp P Q (x ∷ xs) f (h, hs) = (f x h, All-imp P Q xs f hs)

  pub find-any : (p : A → Bool) (xs : List A) (x : A) → find p xs ≡ some x → any p xs ≡ true
  unfolding find any
  find-any p [] x h = ground arith
  find-any p (y ∷ xs) x h = ground (arith, find-any p xs x)

  pub find-none-any : (p : A → Bool) (xs : List A) → find p xs ≡ none → any p xs ≡ false
  unfolding find any
  find-none-any p [] h = refl
  find-none-any p (y ∷ xs) h = ground (arith, find-none-any p xs)

  -- An update of other rows is not seen by a search.
  pub find-update_miss :
      (p q : A → Bool) (f : A → A) (xs : List A)
      → ((x : A) → q x ≡ true → (p x ≡ false) × (p (f x) ≡ false))
      → find p (update q f xs) ≡ find p xs
  unfolding find update
  find-update_miss p q f [] miss = refl
  find-update_miss p q f (x ∷ xs) miss = ground (arith, miss x, find-update_miss p q f xs miss)

  pub find-append_miss :
      (p : A → Bool) (xs : List A) (y : A) → p y ≡ false → find p (xs ++ y ∷ []) ≡ find p xs
  unfolding find
  find-append_miss p [] y h = ground arith
  find-append_miss p (x ∷ xs) y h = ground (arith, find-append_miss p xs y h)

  -- The count falls where the update takes the row that the count finds.
  pub count-update_drop :
      (q p : A → Bool) (f : A → A) (xs : List A) (x : A)
      → ((y : A) → q (f y) ≡ false)
      → find q xs ≡ some x
      → p x ≡ true
      → Prim.Native.Nat.◌<◌ (count q (update p f xs)) (count q xs)
  unfolding count update find
  count-update_drop q p f [] x drop h k = ground arith
  count-update_drop q p f (y ∷ xs) x drop h k =
      let le = count-update-le q p f xs (λ z e. absurd (ground (arith, drop z))) in
      ground (arith, drop y, le, count-update_drop q p f xs x drop)

  pub count-update_add :
      (q p : A → Bool) (f : A → A) (xs : List A)
      → Prim.Native.Nat.◌≤◌
          (count q (update p f xs))
          (Prim.Native.Nat.◌+◌ (count q xs) (count p xs))
  unfolding count update
  count-update_add q p f [] = ground arith
  count-update_add q p f (x ∷ xs) = ground (arith, count-update_add q p f xs)

  pub count-update-All :
      (q p : A → Bool) (f : A → A) (xs : List A)
      → All (λ x. p x ≡ true → q (f x) ≡ q x) xs
      → count q (update p f xs) ≡ count q xs
  unfolding count update
  count-update-All q p f [] h = refl
  count-update-All q p f (x ∷ xs) h = ground (arith, h.0, count-update-All q p f xs h.1)

  pub count-filter-le :
      (q p : A → Bool) (xs : List A) → Prim.Native.Nat.◌≤◌ (count q (filter p xs)) (count q xs)
  unfolding count filter
  count-filter-le q p [] = ground arith
  count-filter-le q p (x ∷ xs) = ground (arith, count-filter-le q p xs)

  pub find-none-count : (p : A → Bool) (xs : List A) → find p xs ≡ none → count p xs ≡ 0
  unfolding count find
  find-none-count p [] h = refl
  find-none-count p (x ∷ xs) h = ground (arith, find-none-count p xs)

  pub any-false-count : (p : A → Bool) (xs : List A) → any p xs ≡ false → count p xs ≡ 0
  unfolding count any
  any-false-count p [] h = refl
  any-false-count p (x ∷ xs) h = ground (arith, any-false-count p xs)

  pub All-filter {κ} :
      (P : A → Type κ) (p : A → Bool) (xs : List A) → All P xs → All P (filter p xs)
  unfolding filter
  All-filter P p [] h = tt
  All-filter P p (x ∷ xs) (h, hs) = elim (Bool-cases (p x)) [
    | inl hit ↦ rw hit (h, All-filter P p xs hs)
    | inr miss ↦ rw miss (All-filter P p xs hs)
  ]
