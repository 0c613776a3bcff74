-- ===== src/AuditChain/Canonical.antt =====
-- `canonicalize` of src/modules/audit/audit-chain.ts: the deterministic text of a JSON value. A number is
-- the text that `JSON.stringify` prints of it; members are in the order of insertion. `undefined`, which
-- the source prints as null, is not among the values of the model.
use easygas_guide_server.Common.{
  ℕ, ◌+◌, ◌/◌, ◌%◌, Bool, true, false, not, ◌&&◌, Option, none, some, List, [], ◌∷◌, ◌++◌, ◌==◌,
  ltb, leb, Text, text, if◌then◌else◌,
}

mutual
  pub data Json : Type 0 where
    null : Json
    boolean : Bool → Json
    number string : Text → Json
    array : Elements → Json
    object : Members → Json

  pub data Elements : Type 0 where
    done : Elements
    item : Json → Elements → Elements

  pub data Members : Type 0 where
    end : Members
    member : Text → Json → Members → Members

hex : ℕ → ℕ
hex d = if ltb d 10 then d + 48 else d + 87

abbrev backslash : ℕ
backslash = 92

-- \u and four hexadecimal digits
unicode_escape : ℕ → Text
unfolding hex
unicode_escape c =
    backslash ∷ 117 ∷ hex (c / 4096) ∷ hex (c / 256 % 16) ∷ hex (c / 16 % 16) ∷ hex (c % 16) ∷ []

is_high : Option ℕ → Bool
is_high none = false
is_high (some c) = leb 0xd800 c && leb c 0xdbff

is_low : Option ℕ → Bool
is_low none = false
is_low (some c) = leb 0xdc00 c && leb c 0xdfff

-- One unit of a string between its neighbours: half a surrogate pair is printed by its number.
escape_unit : Option ℕ → ℕ → Option ℕ → Text
unfolding unicode_escape is_high is_low
escape_unit before c after =
    if c == 34
    then backslash ∷ 34 ∷ []
    else if c == 92
    then backslash ∷ 92 ∷ []
    else if c == 8
    then backslash ∷ 98 ∷ []
    else if c == 9
    then backslash ∷ 116 ∷ []
    else if c == 10
    then backslash ∷ 110 ∷ []
    else if c == 12
    then backslash ∷ 102 ∷ []
    else if c == 13
    then backslash ∷ 114 ∷ []
    else if ltb c 32
    then unicode_escape c
    else if is_high (some c) && not (is_low after)
    then unicode_escape c
    else if is_low (some c) && not (is_high before)
    then unicode_escape c
    else c ∷ []

abbrev first : Text → Option ℕ
first [] = none
first (c ∷ s) = some c

escape : Option ℕ → Text → Text
unfolding escape_unit
escape before [] = []
escape before (c ∷ s) = escape_unit before c (first s) ++ escape (some c) s

-- `JSON.stringify` of a string
unfoldable pub quote : Text → Text
unfolding escape
quote s = 34 ∷ escape none s ++ 34 ∷ []

-- The order of `sort()`: by UTF-16 units.
unfoldable pub text_leb : Text → Text → Bool
text_leb [] t = true
text_leb (c ∷ s) [] = false
text_leb (c ∷ s) (d ∷ t) = let rest = text_leb s t in if c == d then rest else ltb c d

unfoldable pub insert_key : Text × Text → List (Text × Text) → List (Text × Text)
insert_key e [] = e ∷ []
insert_key e (x ∷ xs) =
    let rest = insert_key e xs in if text_leb e.0 x.0 then e ∷ x ∷ xs else x ∷ rest

-- `Object.keys(obj).sort()`, each key with the text of its value
unfoldable pub sort_keys : List (Text × Text) → List (Text × Text)
unfolding insert_key
sort_keys [] = []
sort_keys (e ∷ es) = insert_key e (sort_keys es)

-- `.join(',')`
unfoldable pub join : List Text → Text
join [] = []
join (x ∷ []) = x
join (x ∷ y ∷ ys) = x ++ 44 ∷ join (y ∷ ys)

unfoldable pub key_texts : List (Text × Text) → List Text
unfolding quote
key_texts [] = []
key_texts ((k, v) ∷ es) = (quote k ++ 58 ∷ v) ∷ key_texts es

unfoldable mutual
  unfolding text join key_texts sort_keys quote

  pub canonicalize : Json → Text
  canonicalize Json.null = text "null"
  canonicalize (Json.boolean true) = text "true"
  canonicalize (Json.boolean false) = text "false"
  canonicalize (Json.number n) = n
  canonicalize (Json.string s) = quote s
  canonicalize (Json.array xs) = 91 ∷ join (canonical_items xs) ++ 93 ∷ []
  canonicalize (Json.object ms) =
      123 ∷ join (key_texts (sort_keys (canonical_members ms))) ++ 125 ∷ []

  pub canonical_items : Elements → List Text
  canonical_items Elements.done = []
  canonical_items (Elements.item x xs) = canonicalize x ∷ canonical_items xs

  pub canonical_members : Members → List (Text × Text)
  canonical_members Members.end = []
  canonical_members (Members.member k v ms) = (k, canonicalize v) ∷ canonical_members ms
