-- ===== src/Phone.antt =====
-- src/utils/phone.ts: the canonical form of an Uzbek phone number.
use easygas_guide_server.Common.{
  ℕ, Bool, true, false, ◌&&◌, Option, none, some, [], ◌∷◌, ◌==◌, leb, ◌≡◌, refl, arith, inl, inr,
  length, filter, Text, All, Bool-cases, if◌then◌else◌, ap, subst, some-eq,
}

unfoldable pub is_digit : ℕ → Bool
is_digit c = leb 48 c && leb c 57

-- `s.replace(/\D/g, '')`
unfoldable pub digits_of : Text → Text
digits_of s = filter is_digit s

abbrev pub drop3 : Text → Text
drop3 (a ∷ b ∷ c ∷ s) = s
drop3 _ = []

-- `s.startsWith('998')`
unfoldable pub starts_998 : Text → Bool
starts_998 (a ∷ b ∷ c ∷ s) = a == 57 && (b == 57 && c == 56)
starts_998 _ = false

-- `+998`, then the national digits
abbrev pub with_prefix : Text → Text
with_prefix national = 43 ∷ 57 ∷ 57 ∷ 56 ∷ national

-- The digits decide, once they are taken out.
unfoldable pub normalize_digits : Text → Option Text
unfolding starts_998
normalize_digits digits =
    if length digits == 12 && starts_998 digits
    then some (with_prefix (drop3 digits))
    else if length digits == 9
    then some (with_prefix digits)
    else none

-- `normalizePhone`
unfoldable pub normalize_phone : Text → Option Text
unfolding normalize_digits digits_of
normalize_phone input = normalize_digits (digits_of input)

-- `PHONE_REGEX`: `+998` and nine digits.
unfoldable pub IsCanonical : Text → Type 0
IsCanonical phone =
    (national : Text) × (phone ≡ with_prefix national)
    × (length national ≡ 9)
    × All (λ c. is_digit c ≡ true) national

filter-All : (s : Text) → All (λ c. is_digit c ≡ true) (digits_of s)
unfolding digits_of filter
filter-All [] = tt
filter-All (c ∷ s) = elim (Bool-cases (is_digit c)) [
  | inl h ↦ rw h (h, filter-All s)
  | inr h ↦ rw h (filter-All s)
]

filter-id : (s : Text) → All (λ c. is_digit c ≡ true) s → digits_of s ≡ s
unfolding digits_of filter
filter-id [] h = refl
filter-id (c ∷ s) (h, hs) = rw (h, filter-id s hs) refl

drop3-IsCanonical :
    (digits : Text)
    → length digits ≡ 12
    → All (λ c. is_digit c ≡ true) digits
    → IsCanonical (with_prefix (drop3 digits))
unfolding IsCanonical
drop3-IsCanonical (a ∷ b ∷ c ∷ s) n (ha, (hb, (hc, hs))) = (s, refl, omega arith, hs)
drop3-IsCanonical [] n h = absurd (omega arith)
drop3-IsCanonical (a ∷ []) n h = absurd (omega arith)
drop3-IsCanonical (a ∷ b ∷ []) n h = absurd (omega arith)

normalize_digits-IsCanonical :
    (digits phone : Text)
    → All (λ c. is_digit c ≡ true) digits
    → normalize_digits digits ≡ some phone
    → IsCanonical phone
unfolding normalize_digits IsCanonical
normalize_digits-IsCanonical digits phone h e =
    elim (Bool-cases (length digits == 12 && starts_998 digits)) [
      | inl long ↦
          subst IsCanonical (some-eq _ _ _ (rw long refl) e)
            (drop3-IsCanonical digits (ground arith) h)
      | inr other ↦ elim (Bool-cases (length digits == 9)) [
        | inl short ↦
            subst IsCanonical (some-eq _ _ _ (rw (other, short) refl) e)
              (canonical digits (ground arith) h)
        | inr neither ↦ absurd (let k = rw (other, neither) at e in ground arith)
      ]
    ]
  where
    canonical :
        (ds : Text) → length ds ≡ 9 → All (λ c. is_digit c ≡ true) ds → IsCanonical (with_prefix ds)
    canonical ds n k = (ds, refl, n, k)

canonical-fixed : (phone : Text) → IsCanonical phone → normalize_phone phone ≡ some phone
unfolding IsCanonical normalize_phone normalize_digits starts_998 filter is_digit
canonical-fixed phone (national, e, n, h) =
    let ds : digits_of phone ≡ 57 ∷ 57 ∷ 56 ∷ national =
      rw (e, digits_of, filter) (ap (λ s. 57 ∷ 57 ∷ 56 ∷ s) (filter-id national h)) in
    rw ds (ground (arith, e, n))

-- What the normalization accepts is in the form of PHONE_REGEX, and it is a fixed point: normalizing a
-- stored number again gives the same number.
pub normalize_phone-IsCanonical :
    (input phone : Text)
    → normalize_phone input ≡ some phone
    → IsCanonical phone × (normalize_phone phone ≡ some phone)
unfolding normalize_phone
normalize_phone-IsCanonical input phone e =
    let c = normalize_digits-IsCanonical (digits_of input) phone (filter-All input) e in
    (c, canonical-fixed phone c)
