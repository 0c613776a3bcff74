-- ===== src/AuditChain/Order.antt =====
-- The canonical text of audit-chain.ts does not depend on the order of an object's members, which the
-- database's JSON columns do not keep.
use easygas_guide_server.Common.{
  true, false, List, [], ◌∷◌, ◌++◌, ◌≡◌, ◌≢◌, refl, arith, Text, ap, ◌∙◌,
}
use easygas_guide_server.AuditChain.Canonical.{
  Json, Elements, Members, canonicalize, canonical_items, canonical_members, text_leb, insert_key,
  sort_keys, key_texts, join,
}

-- The same value, but for the order of members of its objects at any depth.
mutual
  pub data Reordered : Json → Json → Type 0 where
    same : (v : Json) → Reordered v v
    in_array : (xs ys : Elements) → ReorderedItems xs ys → Reordered (Json.array xs) (Json.array ys)
    in_object :
        (ms ns : Members) → ReorderedMembers ms ns → Reordered (Json.object ms) (Json.object ns)

  pub data ReorderedItems : Elements → Elements → Type 0 where
    no_items : ReorderedItems Elements.done Elements.done
    items :
        (v w : Json) (xs ys : Elements)
        → Reordered v w
        → ReorderedItems xs ys
        → ReorderedItems (Elements.item v xs) (Elements.item w ys)

  pub data ReorderedMembers : Members → Members → Type 0 where
    no_members : ReorderedMembers Members.end Members.end
    members :
        (k : Text) (v w : Json) (ms ns : Members)
        → Reordered v w
        → ReorderedMembers ms ns
        → ReorderedMembers (Members.member k v ms) (Members.member k w ns)
    swapped :
        (j k : Text) (v w : Json) (ms : Members)
        → j ≢ k
        → ReorderedMembers
            (Members.member j v (Members.member k w ms))
            (Members.member k w (Members.member j v ms))
    chained :
        (ks ms ns : Members)
        → ReorderedMembers ks ms
        → ReorderedMembers ms ns
        → ReorderedMembers ks ns

text_leb-total : (s t : Text) → text_leb s t ≡ false → text_leb t s ≡ true
unfolding text_leb
text_leb-total [] t h = ground arith
text_leb-total (c ∷ s) [] h = refl
text_leb-total (c ∷ s) (d ∷ t) h = ground (arith, text_leb-total s t)

text_leb-antisym : (s t : Text) → text_leb s t ≡ true → text_leb t s ≡ true → s ≡ t
unfolding text_leb
text_leb-antisym [] [] h k = refl
text_leb-antisym [] (d ∷ t) h k = ground arith
text_leb-antisym (c ∷ s) [] h k = ground arith
text_leb-antisym (c ∷ s) (d ∷ t) h k = ground (arith, text_leb-antisym s t)

text_leb_trans : (s t u : Text) → text_leb s t ≡ true → text_leb t u ≡ true → text_leb s u ≡ true
unfolding text_leb
text_leb_trans [] t u h k = refl
text_leb_trans (c ∷ s) [] u h k = ground arith
text_leb_trans (c ∷ s) (d ∷ t) [] h k = ground arith
text_leb_trans (c ∷ s) (d ∷ t) (e ∷ u) h k = ground (arith, text_leb_trans s t u)

-- Two entries with different keys can be inserted in either order.
insert_key_comm :
    (x y : Text × Text) (es : List (Text × Text))
    → x.0 ≢ y.0
    → insert_key x (insert_key y es) ≡ insert_key y (insert_key x es)
unfolding insert_key
insert_key_comm x y [] h = ground (arith, text_leb-total x.0 y.0, text_leb-antisym x.0 y.0, h)
insert_key_comm x y (e ∷ es) h = ground (
  arith,
  insert_key_comm x y es h,
  h,
  text_leb-total x.0 y.0,
  text_leb-total y.0 x.0,
  text_leb-antisym x.0 y.0,
  text_leb-total x.0 e.0,
  text_leb-total y.0 e.0,
  text_leb_trans x.0 y.0 e.0,
  text_leb_trans y.0 x.0 e.0,
  text_leb_trans x.0 e.0 y.0,
  text_leb_trans y.0 e.0 x.0,
)

sort_keys-swap :
    (x y : Text × Text) (es : List (Text × Text))
    → x.0 ≢ y.0
    → sort_keys (x ∷ y ∷ es) ≡ sort_keys (y ∷ x ∷ es)
unfolding sort_keys
sort_keys-swap x y es h = insert_key_comm x y (sort_keys es) h

mutual
  unfolding canonicalize sort_keys

  value-Reordered : {v w : Json} → Reordered v w → canonicalize v ≡ canonicalize w
  value-Reordered (same v) = refl
  value-Reordered (in_array xs ys h) =
      ap (λ ts. 91 ∷ join ts ++ 93 ∷ []) (canonical_items-Reordered h)
  value-Reordered (in_object ms ns h) =
      ap (λ es. 123 ∷ join (key_texts es) ++ 125 ∷ []) (canonical_members-Reordered h)

  canonical_items-Reordered :
      {xs ys : Elements} → ReorderedItems xs ys → canonical_items xs ≡ canonical_items ys
  canonical_items-Reordered no_items = refl
  canonical_items-Reordered (items v w xs ys h hs) =
      cc (value-Reordered h, canonical_items-Reordered hs)

  canonical_members-Reordered :
      {ms ns : Members}
      → ReorderedMembers ms ns
      → sort_keys (canonical_members ms) ≡ sort_keys (canonical_members ns)
  canonical_members-Reordered no_members = refl
  canonical_members-Reordered (members k v w ms ns h hs) =
      cc (value-Reordered h, canonical_members-Reordered hs)
  canonical_members-Reordered (swapped j k v w ms h) =
      sort_keys-swap (j, canonicalize v) (k, canonicalize w) (canonical_members ms) h
  canonical_members-Reordered (chained ks ms ns h hs) =
      canonical_members-Reordered h ∙ canonical_members-Reordered hs

-- What the audit log hashes does not depend on the order in which the members of an object are stored:
-- two values that differ only in that, at any depth, have one canonical text. Members that trade
-- places have different keys.
pub canonicalize-Reordered : {v w : Json} → Reordered v w → canonicalize v ≡ canonicalize w
canonicalize-Reordered h = value-Reordered h
