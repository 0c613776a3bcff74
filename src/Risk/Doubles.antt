-- ===== src/Risk/Doubles.antt =====
-- The numbers of JavaScript, as risk-policy.service.ts compares and multiplies them.
use easygas_guide_server.Common.{
  ℕ, zero, suc, ◌+◌, ◌-◌, ◌*◌, ◌/◌, ◌%◌, ◌^◌, max, Bool, true, false, not, ◌&&◌, ◌||◌, Option, none,
  some, ◌==◌, leb, ltb, if◌then◌else◌, Text,
}
use easygas_guide_server.AuditChain.Canonical.{text_leb}

-- mantissa / 2 ^ exponent, with its sign.
pub record Dyadic : Type 0 where
  pub negative : Bool
  pub mantissa : ℕ
  pub exponent : ℕ

pub data Num : Type 0 where
  finite : Dyadic → Num
  infinite : (negative : Bool) → Num
  nan : Num

abbrev pub whole : ℕ → Num
whole n = finite (record { negative = false; mantissa = n; exponent = 0 })

-- n / d to the nearest whole number, a half to the even one.
unfoldable pub round_ratio : ℕ → ℕ → ℕ
round_ratio n d =
    let q = n / d in
    let r = 2 * (n % d) in if ltb r d then q else if ltb d r then q + 1 else q + q % 2

abbrev dyadic_le : Dyadic → Dyadic → Bool
dyadic_le a b =
    let x = a.mantissa * 2 ^ b.exponent in
    let y = b.mantissa * 2 ^ a.exponent in
    if a.negative
    then (if b.negative then leb y x else true)
    else if b.negative
    then x == 0 && y == 0
    else leb x y

-- `a <= b`: false where one of them is NaN.
unfoldable pub num_le : Num → Num → Bool
num_le nan b = false
num_le (finite a) (finite b) = dyadic_le a b
num_le (finite a) (infinite n) = not n
num_le (finite a) nan = false
num_le (infinite n) (finite b) = n
num_le (infinite m) (infinite n) = m || not n
num_le (infinite n) nan = false

-- `a < b`
unfoldable pub num_lt : Num → Num → Bool
unfolding num_le
num_lt a b = num_le a b && not (num_le b a)

-- How many bits beyond 53 a mantissa has.
excess_from : ℕ → ℕ → ℕ
excess_from zero n = 0
excess_from (suc fuel) n = elim (ltb n (2 ^ 53)) [
  | true ↦ 0
  | false ↦ suc (excess_from fuel (n / 2))
]

-- The double nearest to mantissa / 2 ^ exponent. The product of two doubles below 2^1024 is below
-- 2^2048, so 2048 halvings are enough; the least double is 2^-1074.
unfoldable pub to_nearest : Bool → ℕ → ℕ → Num
unfolding excess_from round_ratio
to_nearest negative mantissa exponent =
    let s = max (excess_from 2048 mantissa) (exponent - 1074) in
    let r = round_ratio mantissa (2 ^ s) * 2 ^ s in
    if leb (2 ^ 1024 * 2 ^ exponent) r
    then infinite negative
    else finite (record { negative = negative; mantissa = r; exponent = exponent })

abbrev differ_sign : Bool → Bool → Bool
differ_sign a b = if a then not b else b

-- `a * b`
unfoldable pub times : Num → Num → Num
unfolding to_nearest
times (finite a) (finite b) =
    to_nearest (differ_sign a.negative b.negative) (a.mantissa * b.mantissa)
      (a.exponent + b.exponent)
times (finite a) (infinite n) = if a.mantissa == 0 then nan else infinite (differ_sign a.negative n)
times (finite a) nan = nan
times (infinite n) (finite b) = if b.mantissa == 0 then nan else infinite (differ_sign n b.negative)
times (infinite m) (infinite n) = infinite (differ_sign m n)
times (infinite n) nan = nan
times nan b = nan

-- A member of a JSON value as the operators see it: a number, or what another value, `undefined` for
-- a missing one included, converts to: the number, and the text where it converts to a text first.
pub data Leaf : Type 0 where
  number : Num → Leaf
  converted : Num → Option Text → Leaf

abbrev pub to_number : Leaf → Num
to_number (number n) = n
to_number (converted n t) = n

-- `a < b` compares two texts by their units, and numbers otherwise.
unfoldable pub leaf_lt : Leaf → Leaf → Bool
unfolding num_lt
leaf_lt (converted m (some s)) (converted n (some t)) = not (text_leb t s)
leaf_lt (converted m (some s)) (converted n none) = num_lt m n
leaf_lt (converted m (some s)) (number n) = num_lt m n
leaf_lt (converted m none) b = num_lt m (to_number b)
leaf_lt (number m) b = num_lt m (to_number b)

-- `[...].includes(n)` for a number n: only a number equals it.
unfoldable pub is_number : Num → Leaf → Bool
unfolding num_le
is_number n (number m) = num_le m n && num_le n m
is_number n (converted m t) = false

-- What `JSON.stringify` writes and `JSON.parse` reads back: null for a number that is not finite.
abbrev pub reread : Leaf → Leaf
reread (number (infinite n)) = converted (whole 0) none
reread (number nan) = converted (whole 0) none
reread (number (finite d)) = number (finite d)
reread (converted n t) = converted n t
