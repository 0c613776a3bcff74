-- ===== src/Templates/Versions.antt =====
-- The versions of a template under templates.service.ts: at most one is a draft and at most one is
-- published.
use easygas_guide_server.Common.{
  ℕ, suc, ◌≤◌, ◌<◌, Bool, true, ◌&&◌, some, List, [], ◌∷◌, ◌++◌, ◌≡◌, refl, arith, inl, inr, ◌==◌,
  filter, update, count, All, All-append, All-imp, All-update, All-filter, count-append,
  count-update-le, count-update_same, count-update_add, count-update-All, count-filter-le,
  count-eq-All, Bool-cases, ==-eq, &&-true, count-mono,
}
use easygas_guide_server.Templates.{
  Template, Version, VersionStatus, is_draft, is_published, archive, new_version,
}

unfoldable pub draft_of : ℕ → Version → Bool
draft_of t v = v.template_id == t && is_draft v.status

unfoldable pub published_of : ℕ → Version → Bool
published_of t v = v.template_id == t && is_published v.status

-- One draft and one published version at most, ids that are a key, and all ids below the counter.
pub record Sound (templates : List Template) (versions : List Version) (next_id : ℕ) : Type 0 where
  pub drafts : (t : ℕ) → count (draft_of t) versions ≤ 1
  pub published : (t : ℕ) → count (published_of t) versions ≤ 1
  pub keyed : (id : ℕ) → count (λ v. v.id == id) versions ≤ 1
  pub old_ids : All (λ v. v.id < next_id) versions
  pub old_templates : All (λ v. v.template_id < next_id) versions
  pub known : All (λ (t : Template). t.id < next_id) templates

none_above :
    (p : Version → ℕ) (next : ℕ) (k : ℕ) (vs : List Version)
    → All (λ v. p v < next) vs
    → next ≤ k
    → count (λ v. p v == k) vs ≡ 0
unfolding count
none_above p next k [] h le = refl
none_above p next k (v ∷ vs) (h, hs) le = ground (arith, none_above p next k vs hs le)

-- The counter only grows.
pub Sound-later :
    (ts : List Template) (vs : List Version) (n m : ℕ) → n ≤ m → Sound ts vs n → Sound ts vs m
Sound-later ts vs n m le s = record {
  drafts = s.drafts;
  published = s.published;
  keyed = s.keyed;
  old_ids = All-imp (λ v. v.id < n) (λ v. v.id < m) vs (λ v lt. omega arith) s.old_ids;
  old_templates =
      All-imp (λ v. v.template_id < n) (λ v. v.template_id < m) vs (λ v lt. omega arith)
        s.old_templates;
  known = All-imp (λ (t : Template). t.id < n) (λ t. t.id < m) ts (λ t lt. omega arith) s.known;
}

-- A new draft of a template that has none.
pub add_draft :
    (ts : List Template) (vs : List Version) (n id t k actor : ℕ)
    → Sound ts vs n
    → count (draft_of t) vs ≡ 0
    → n ≤ id
    → t < suc id
    → Sound ts (vs ++ new_version id t k actor ∷ []) (suc id)
unfolding count draft_of published_of new_version
add_draft ts vs n id t k actor s none_yet le lt =
    let new = new_version id t k actor in
    let later = Sound-later ts vs n (suc id) (omega arith) s in
    record {
      drafts = λ i.
          ground (arith, s.drafts i, none_yet, count-append (draft_of i) vs (new ∷ []), ==-eq t i);
      published = λ i. ground (arith, s.published i, count-append (published_of i) vs (new ∷ []));
      keyed = λ i. ground (
        arith,
        s.keyed i,
        count-append (λ v. v.id == i) vs (new ∷ []),
        none_above (λ v. v.id) n id vs s.old_ids le,
        ==-eq id i,
      );
      old_ids = All-append (λ v. v.id < suc id) vs (new ∷ []) later.old_ids (omega arith, tt);
      old_templates =
          All-append (λ v. v.template_id < suc id) vs (new ∷ []) later.old_templates (lt, tt);
      known = later.known;
    }

-- A new template with its first draft.
pub add_template :
    (ts : List Template) (vs : List Version) (n actor : ℕ) (t : Template)
    → t.id ≡ n
    → Sound ts vs n
    → Sound (ts ++ t ∷ []) (vs ++ new_version (suc n) n 1 actor ∷ []) (suc (suc n))
unfolding draft_of
add_template ts vs n actor t e s =
    let none_yet : count (draft_of n) vs ≡ 0 = ground (
      arith,
      none_above (λ v. v.template_id) n n vs s.old_templates (omega arith),
      count-mono (draft_of n) (λ v. v.template_id == n) vs (λ v k. ground arith),
    ) in
    let d = add_draft ts vs n (suc n) n 1 actor s none_yet (omega arith) (omega arith) in
    record {
      drafts = d.drafts;
      published = d.published;
      keyed = d.keyed;
      old_ids = d.old_ids;
      old_templates = d.old_templates;
      known =
          All-append (λ (x : Template). x.id < suc (suc n)) ts (t ∷ []) d.known (omega arith, tt);
    }

module _ (ts : List Template) (vs : List Version) (n : ℕ) where
  pub archive-Sound : (id : ℕ) → Sound ts vs n → Sound ts (update (λ v. v.id == id) archive vs) n
  unfolding draft_of published_of
  archive-Sound id s = record {
    drafts = λ t. ground (
      arith,
      s.drafts t,
      count-update-le (draft_of t) (λ v. v.id == id) archive vs (λ v e. ground arith),
    );
    published = λ t. ground (
      arith,
      s.published t,
      count-update-le (published_of t) (λ v. v.id == id) archive vs (λ v e. ground arith),
    );
    keyed = λ i. ground (
      arith,
      s.keyed i,
      count-update_same (λ v. v.id == i) (λ v. v.id == id) archive vs (λ v. refl),
    );
    old_ids = All-update (λ v. v.id < n) (λ v. v.id == id) archive vs (λ v h. h) s.old_ids;
    old_templates =
        All-update (λ v. v.template_id < n) (λ v. v.id == id) archive vs (λ v h. h) s.old_templates;
    known = s.known;
  }

  pub filter-Sound :
      (p : Version → Bool) (q : Template → Bool)
      → Sound ts vs n
      → Sound (filter q ts) (filter p vs) n
  filter-Sound p q s = record {
    drafts = λ t. ground (arith, s.drafts t, count-filter-le (draft_of t) p vs);
    published = λ t. ground (arith, s.published t, count-filter-le (published_of t) p vs);
    keyed = λ i. ground (arith, s.keyed i, count-filter-le (λ v. v.id == i) p vs);
    old_ids = All-filter (λ v. v.id < n) p vs s.old_ids;
    old_templates = All-filter (λ v. v.template_id < n) p vs s.old_templates;
    known = All-filter (λ (t : Template). t.id < n) q ts s.known;
  }

  abbrev pub publish : ℕ → Version → Version
  publish now v = record v { status = VersionStatus.published; published_at = some now }

  -- A version of a template that has no published one is published.
  pub publish-Sound :
      (id t now : ℕ)
      → Sound ts vs n
      → 1 ≤ count (λ x. x.id == id && x.template_id == t) vs
      → count (published_of t) vs ≡ 0
      → Sound ts (update (λ x. x.id == id) (publish now) vs) n
  unfolding draft_of published_of
  publish-Sound id t now s one none_yet =
      let of_t =
        count-eq-All (λ x. x.id == id && x.template_id == t) (λ x. x.id == id) vs
          (λ x e. (&&-true _ _ e).0) (ground (arith, one, s.keyed id)) in
      record {
        drafts = λ i. ground (
          arith,
          s.drafts i,
          count-update-le (draft_of i) (λ x. x.id == id) (publish now) vs (λ x e. ground arith),
        );
        published = λ i. elim (Bool-cases (t == i)) [
          | inl same ↦ ground (
            arith,
            s.keyed id,
            none_yet,
            ==-eq t i same,
            count-update_add (published_of i) (λ x. x.id == id) (publish now) vs,
          )
          | inr other ↦ ground (
            arith,
            s.published i,
            count-update-All (published_of i) (λ x. x.id == id) (publish now) vs
                (All-imp (λ x. (x.id == id) ≡ true → (x.id == id && x.template_id == t) ≡ true) _ vs
                  (λ x h e. ground (arith, h e, other)) of_t),
          )
        ];
        keyed = λ i. ground (
          arith,
          s.keyed i,
          count-update_same (λ x. x.id == i) (λ x. x.id == id) (publish now) vs (λ x. refl),
        );
        old_ids =
            All-update (λ x. x.id < n) (λ x. x.id == id) (publish now) vs (λ x h. h) s.old_ids;
        old_templates =
            All-update (λ x. x.template_id < n) (λ x. x.id == id) (publish now) vs (λ x h. h)
              s.old_templates;
        known = s.known;
      }
