-- ===== src/Completion/Snapshots.antt =====
-- The completion snapshot: one row for each job and cycle, written with the close.
use easygas_guide_server.Common.{
  ℕ, ◌+◌, Bool, true, ◌&&◌, none, List, [], ◌∷◌, ◌++◌, ◌==◌, ◌≡◌, refl, sym, ◌∙◌, arith, find,
  count, Option-cases, inl, inr, ap, is_some, All-count-zero, find-none-All, count-append, ◌⊎◌, ◌≤◌,
}
use easygas_guide_server.Api.{Code, ok, present-ok, ok-injective}
use easygas_guide_server.Store.{Db, Snapshot, find_job}
use easygas_guide_server.Completion.Summary.{Digests, collect_material}
use easygas_guide_server.Completion.Close.{finalize_snapshot}

abbrev pub is_snapshot_of : ℕ → ℕ → Snapshot → Bool
is_snapshot_of job_id cycle s = s.job_id == job_id && s.cycle == cycle

find-append_new :
    {A : Type 0} (p : A → Bool) (xs : List A) (x : A)
    → p x ≡ true
    → is_some (find p (xs ++ x ∷ [])) ≡ true
unfolding find
find-append_new p [] x h = rw h refl
find-append_new p (y ∷ xs) x h = ground (arith, find-append_new p xs x h)

finalize_snapshot-cases :
    (d : Digests) (job_id cycle user : ℕ) (db : Db) {r : Db}
    → finalize_snapshot d job_id cycle user db ≡ ok r
    → ((r ≡ db) × (is_some (find (is_snapshot_of job_id cycle) db.snapshots) ≡ true))
      ⊎ ((s : Snapshot) × (r.snapshots ≡ db.snapshots ++ s ∷ [])
          × (is_snapshot_of job_id cycle s ≡ true)
          × (find (is_snapshot_of job_id cycle) db.snapshots ≡ none))
unfolding finalize_snapshot
finalize_snapshot-cases d job_id cycle user db {r} h =
    elim (Option-cases (find (is_snapshot_of job_id cycle) db.snapshots)) [
      | inr (s, seen) ↦ inl (sym (ok-injective (rw (finalize_snapshot, seen) at h)), rw seen refl)
      | inl fresh ↦
          let h0 = rw (finalize_snapshot, fresh) at h in
          let (job, _, h1) = present-ok (find_job job_id db) Code.not_found _ h0 in
          let (m, _, h2) = present-ok (collect_material job_id db) Code.not_found _ h1 in
          inr (_, sym (ap (λ x. x.snapshots) (ok-injective h2)), ground arith, fresh)
    ]

existing_kept :
    (d : Digests) (job_id cycle user : ℕ) (db : Db)
    → is_some (find (is_snapshot_of job_id cycle) db.snapshots) ≡ true
    → finalize_snapshot d job_id cycle user db ≡ ok db
unfolding finalize_snapshot
existing_kept d job_id cycle user db h =
    elim (Option-cases (find (is_snapshot_of job_id cycle) db.snapshots)) [
      | inl fresh ↦ absurd (ground arith)
      | inr (s, seen) ↦ rw (finalize_snapshot, seen) refl
    ]

-- Where a snapshot was finalized, finalizing it again, by any user, succeeds and changes nothing.
pub finalize_snapshot_once :
    (d : Digests) (job_id cycle user again : ℕ) (db r : Db)
    → finalize_snapshot d job_id cycle user db ≡ ok r
    → finalize_snapshot d job_id cycle again r ≡ ok r
finalize_snapshot_once d job_id cycle user again db r h =
    elim (finalize_snapshot-cases d job_id cycle user db h) [
      | inl (same, seen) ↦ existing_kept d job_id cycle again r (rw same seen)
      | inr (s, table, hit, fresh) ↦
          existing_kept d job_id cycle again r
            (rw table (find-append_new (is_snapshot_of job_id cycle) db.snapshots s hit))
    ]

-- A job and cycle that had at most one snapshot has exactly one after a snapshot is finalized.
pub finalize_snapshot_unique :
    (d : Digests) (job_id cycle user : ℕ) (db r : Db)
    → count (is_snapshot_of job_id cycle) db.snapshots ≤ 1
    → finalize_snapshot d job_id cycle user db ≡ ok r
    → count (is_snapshot_of job_id cycle) r.snapshots ≡ 1
unfolding count find
finalize_snapshot_unique d job_id cycle user db r few h =
    elim (finalize_snapshot-cases d job_id cycle user db h) [
      | inl (same, seen) ↦ rw same (one_of (is_snapshot_of job_id cycle) db.snapshots few seen)
      | inr (s, table, hit, fresh) ↦ rw table (
          count-append (is_snapshot_of job_id cycle) db.snapshots (s ∷ [])
          ∙ one_more (is_snapshot_of job_id cycle) db.snapshots s hit fresh)
    ]
  where
    one_of :
        (p : Snapshot → Bool) (xs : List Snapshot)
        → count p xs ≤ 1
        → is_some (find p xs) ≡ true
        → count p xs ≡ 1
    one_of p [] few seen = absurd (ground arith)
    one_of p (x ∷ xs) few seen = ground (arith, one_of p xs)

    one_more :
        (p : Snapshot → Bool) (xs : List Snapshot) (s : Snapshot)
        → p s ≡ true
        → find p xs ≡ none
        → count p xs + count p (s ∷ []) ≡ 1
    one_more p xs s hit fresh =
        let zero_of = All-count-zero p xs (find-none-All p xs fresh) in rw (zero_of, hit) refl
