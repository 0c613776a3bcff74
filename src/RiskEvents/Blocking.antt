-- ===== src/RiskEvents/Blocking.antt =====
-- The risk that a rejected STOP links, and its resolution.
use easygas_guide_server.Common.{
  ℕ, ◌≤◌, Bool, true, false, none, List, [], ◌∷◌, ◌++◌, ◌≡◌, refl, sym, ◌∙◌, arith, find, filter,
  count, All, Option-cases, inl, inr, ap, is_some, Text, Listed, Listed-update, Listed-none,
  Listed-filter, count-append, All-count-zero, find-none-All, ◌⊎◌,
}
use easygas_guide_server.Api.{ok, >>=-eq-ok, ok-injective}
use easygas_guide_server.Risk.{whole, stop_rejected}
use easygas_guide_server.RiskPolicy.{assess_risk}
use easygas_guide_server.Store.{Db, RiskEvent}
use easygas_guide_server.RiskEvents.{
  is_open_stop_risk, StopRiskArgs, link_stop_rejection_risk, resolve_all, resolve_stop_risk,
}

resolve_all-clears :
    (job_id cycle step user approval now : ℕ) (note : Text) (rs : List RiskEvent) (db : Db)
    → Listed (λ (r : RiskEvent). r.id) (is_open_stop_risk job_id cycle step) rs db.risks
    → All
        (λ r. is_open_stop_risk job_id cycle step r ≡ false)
        (resolve_all user approval now note rs db).risks
unfolding resolve_all is_open_stop_risk
resolve_all-clears job_id cycle step user approval now note [] db h = Listed-none _ _ db.risks h
resolve_all-clears job_id cycle step user approval now note (r ∷ rs) db h =
    resolve_all-clears job_id cycle step user approval now note rs _
      (Listed-update _ (is_open_stop_risk job_id cycle step) _ r rs db.risks (λ x. ground arith) h)

-- Resolving the linked risks of a step leaves none of them open.
pub resolve_stop_risk_clears :
    (job_id cycle step user approval now : ℕ) (note : Text) (db : Db)
    → count
        (is_open_stop_risk job_id cycle step)
        (resolve_stop_risk job_id cycle step user approval now note db).risks
      ≡ 0
unfolding resolve_stop_risk
resolve_stop_risk_clears job_id cycle step user approval now note db =
    All-count-zero (is_open_stop_risk job_id cycle step) _ (
      resolve_all-clears job_id cycle step user approval now note
        (filter (is_open_stop_risk job_id cycle step) db.risks) db
        (Listed-filter _ (is_open_stop_risk job_id cycle step) db.risks))

abbrev stop_risk : StopRiskArgs → RiskEvent → Bool
stop_risk args = is_open_stop_risk args.job_id args.cycle args.job_step_id

link-cases :
    (args : StopRiskArgs) (db : Db) {r : Db}
    → link_stop_rejection_risk args db ≡ ok r
    → ((r ≡ db) × (is_some (find (stop_risk args) db.risks) ≡ true))
      ⊎ ((x : RiskEvent) × (r.risks ≡ db.risks ++ x ∷ [])
          × (stop_risk args x ≡ true)
          × (find (stop_risk args) db.risks ≡ none))
unfolding link_stop_rejection_risk
link-cases args db {r} h = elim (Option-cases (find (stop_risk args) db.risks)) [
  | inr (x, seen) ↦
      inl (sym (ok-injective (rw (link_stop_rejection_risk, seen) at h)), rw seen refl)
  | inl fresh ↦
      let h0 = rw (link_stop_rejection_risk, fresh) at h in
      let (a, _, h1) = >>=-eq-ok (assess_risk db (whole 4) (whole 4) stop_rejected) _ h0 in
      inr (_, sym (ap (λ x. x.risks) (ok-injective h1)), ground arith, fresh)
]

one_of :
    {A : Type 0} (p : A → Bool) (xs : List A)
    → count p xs ≤ 1
    → is_some (find p xs) ≡ true
    → count p xs ≡ 1
unfolding count find
one_of p [] few seen = absurd (ground arith)
one_of p (x ∷ xs) few seen = ground (arith, one_of p xs)

one_more :
    {A : Type 0} (p : A → Bool) (xs : List A) (x : A)
    → p x ≡ true
    → find p xs ≡ none
    → count p (xs ++ x ∷ []) ≡ 1
unfolding count
one_more p xs x hit fresh =
    count-append p xs (x ∷ []) ∙ rw (All-count-zero p xs (find-none-All p xs fresh), hit) refl

-- Linking keeps one open risk for the step and cycle: where there was at most
-- one, there is exactly one after each.
pub link_keeps_one :
    (args : StopRiskArgs) (db r : Db)
    → count (is_open_stop_risk args.job_id args.cycle args.job_step_id) db.risks ≤ 1
    → link_stop_rejection_risk args db ≡ ok r
    → count (is_open_stop_risk args.job_id args.cycle args.job_step_id) r.risks ≡ 1
link_keeps_one args db r few h = elim (link-cases args db h) [
  | inl (same, seen) ↦ rw same (one_of (stop_risk args) db.risks few seen)
  | inr (x, table, hit, fresh) ↦ rw table (one_more (stop_risk args) db.risks x hit fresh)
]
