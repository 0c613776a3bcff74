-- ===== src/Completion/Live.antt =====
-- At most one live signature of a job and cycle.
use easygas_guide_server.Common.{
  ℕ, ◌≤◌, Bool, true, false, not, Option, none, some, List, [], ◌∷◌, ◌++◌, ◌==◌, ◌≡◌, refl, sym,
  ◌∙◌, arith, update, count, any, All, Bool-cases, Option-cases, inl, inr, ap, ==-refl, subst,
  count-append, All-count-zero, Listed, Listed-update, Listed-none,
}
use easygas_guide_server.Api.{Code, ok, require-ok, >>=-eq-ok, ok-injective}
use easygas_guide_server.Rbac.{Actor}
use easygas_guide_server.Jobs.{load_scoped_job, is_workable}
use easygas_guide_server.Store.{Db, Signature, find_checklist}
use easygas_guide_server.Completion.{find_last}
use easygas_guide_server.Completion.Summary.{Digests, current_summary_digest}
use easygas_guide_server.Completion.Close.{differ}
use easygas_guide_server.Completion.Sign.{
  Upload, Registered, register_signature, clear_signature, is_live_signature, still_matches,
  checklist_completed,
}

-- Where nothing is found last, nothing matches; and one match is the one that is found.
find_last-none-All :
    (p : Signature → Bool) (gs : List Signature) → find_last p gs ≡ none → All (λ g. p g ≡ false) gs
unfolding find_last
find_last-none-All p [] h = tt
find_last-none-All p (g ∷ gs) h = elim (Option-cases (find_last p gs)) [
  | inl nothing ↦ (ground arith, find_last-none-All p gs nothing)
  | inr (x, seen) ↦ absurd (ground arith)
]

find_last-counted :
    (p : Signature → Bool) (gs : List Signature) (g : Signature)
    → find_last p gs ≡ some g
    → 1 ≤ count p gs
unfolding find_last count
find_last-counted p [] g h = absurd (ground arith)
find_last-counted p (x ∷ gs) g h = elim (Option-cases (find_last p gs)) [
  | inl nothing ↦ ground arith
  | inr (y, seen) ↦ ground (arith, find_last-counted p gs y seen)
]

none-Listed :
    (p : Signature → Bool) (gs : List Signature) (g : Signature)
    → All (λ x. p x ≡ false) gs
    → Listed (λ (x : Signature). x.id) p (g ∷ []) gs
unfolding Listed
none-Listed p [] g h = tt
none-Listed p (x ∷ gs) g h = (λ k. absurd (ground (arith, h.0)), none-Listed p gs g h.1)

last_same :
    (p : Signature → Bool) (x : Signature) (gs : List Signature) (g : Signature)
    → find_last p gs ≡ none
    → p x ≡ true
    → find_last p (x ∷ gs) ≡ some g
    → x ≡ g
unfolding find_last
last_same p x gs g nothing k h = ground arith

later_same :
    (p : Signature → Bool) (x : Signature) (gs : List Signature) (y g : Signature)
    → find_last p gs ≡ some y
    → find_last p (x ∷ gs) ≡ some g
    → some y ≡ some g
unfolding find_last
later_same p x gs y g seen h = ground arith

head_is : (g : Signature) → any (λ (r : Signature). r.id == g.id) (g ∷ []) ≡ true
unfolding any
head_is g = ground (arith, ==-refl g.id)

find_last-Listed :
    (p : Signature → Bool) (gs : List Signature) (g : Signature)
    → find_last p gs ≡ some g
    → count p gs ≤ 1
    → Listed (λ (x : Signature). x.id) p (g ∷ []) gs
unfolding find_last count Listed any
find_last-Listed p [] g h few = tt
find_last-Listed p (x ∷ gs) g h few = elim (Option-cases (find_last p gs)) [
  | inl nothing ↦ (
    λ k. rw (last_same p x gs g nothing k h) (head_is g),
    none-Listed p gs g (find_last-none-All p gs nothing),
  )
  | inr (y, seen) ↦ (
    λ k. absurd (ground (arith, find_last-counted p gs y seen)),
    find_last-Listed p gs g (seen ∙ later_same p x gs y g seen h) (ground arith),
  )
]

-- Superseding a row never makes another one live.
superseded_fewer :
    (p : Signature → Bool) (q : Signature → Bool) (f : Signature → Signature) (gs : List Signature)
    → ((g : Signature) → p (f g) ≡ false)
    → count p (update q f gs) ≤ count p gs
unfolding count update
superseded_fewer p q f [] kills = omega arith
superseded_fewer p q f (g ∷ gs) kills = ground (arith, kills g, superseded_fewer p q f gs kills)

superseded : ℕ → Signature → Signature
superseded now g = record g { superseded_at = some now }

superseded_dead :
    (job_id cycle now : ℕ) (g : Signature)
    → is_live_signature job_id cycle (superseded now g) ≡ false
unfolding superseded is_live_signature
superseded_dead job_id cycle now g = ground arith

at_most_one : {m n : ℕ} → m ≤ n → n ≤ 1 → m ≤ 1
at_most_one h k = omega arith

-- Every job and cycle has at most one live signature, PENDING or READY and not superseded.
abbrev pub OneLive : Db → Type 0
OneLive db = (job_id cycle : ℕ) → count (is_live_signature job_id cycle) db.signatures ≤ 1

-- The live signature in the way is superseded, and nothing else becomes live.
clear_signature-Cleared :
    (actor : Actor) (job_id now cycle : ℕ) (bound : Option ℕ) (db : Db) {r : Db}
    → OneLive db
    → clear_signature actor job_id now
        (find_last (is_live_signature job_id cycle) db.signatures)
        bound
        db
      ≡ ok r
    → (count (is_live_signature job_id cycle) r.signatures ≡ 0) × OneLive r
unfolding clear_signature superseded
clear_signature-Cleared actor job_id now cycle bound db {r} one h =
    elim (Option-cases (find_last (is_live_signature job_id cycle) db.signatures)) [
      | inl nothing ↦
          let same : db ≡ r = ok-injective (rw nothing at h) in
          let zero_live =
            All-count-zero (is_live_signature job_id cycle) db.signatures
              (find_last-none-All (is_live_signature job_id cycle) db.signatures nothing) in
          rw (← same) (zero_live, one)
      | inr (g, seen) ↦
          let (_, h1) =
            require-ok (not (still_matches bound g)) Code.signature_exists _ (rw seen at h) in
          let table : r.signatures
              ≡ update (λ x. x.id == g.id) (λ x. record x { superseded_at = some now })
                  db.signatures =
            ap (λ x. x.signatures) (sym (ok-injective h1)) in
          let listed =
            Listed-update _ (is_live_signature job_id cycle) (superseded now) g [] db.signatures
              (superseded_dead job_id cycle now)
              (find_last-Listed (is_live_signature job_id cycle) db.signatures g seen
                (one job_id cycle)) in
          rw table (
            All-count-zero (is_live_signature job_id cycle) _
                (Listed-none _ (is_live_signature job_id cycle) _ listed),
            λ i c.
                at_most_one
                  (superseded_fewer (is_live_signature i c) (λ x. x.id == g.id) (superseded now)
                    db.signatures (superseded_dead i c now))
                  (one i c),
          )
    ]

one_more_live :
    (job_id cycle i c : ℕ) (gs : List Signature) (g : Signature)
    → g.job_id ≡ job_id
    → g.cycle ≡ cycle
    → count (is_live_signature job_id cycle) gs ≡ 0
    → count (is_live_signature i c) gs ≤ 1
    → count (is_live_signature i c) (gs ++ g ∷ []) ≤ 1
unfolding count is_live_signature
one_more_live job_id cycle i c gs g same_job same_cycle zero_live few =
    rw (count-append (is_live_signature i c) gs (g ∷ []))
      (elim (Bool-cases (is_live_signature i c g)) [
        | inl live ↦
            let (j, k) = live_keys i c g live in
            let there : count (is_live_signature i c) gs ≡ 0 =
              rw (sym same_job ∙ j, sym same_cycle ∙ k) at zero_live in
            rw (there, live) (omega arith)
        | inr dead ↦ rw dead (ground (arith, few))
      ])
  where
    live_keys :
        (i c : ℕ) (g : Signature) → is_live_signature i c g ≡ true → (g.job_id ≡ i) × (g.cycle ≡ c)
    live_keys i c g h = ground arith

-- Where every job and cycle has at most one live signature, this still holds after the
-- registration of another one.
pub register_signature-OneLive :
    (d : Digests) (actor : Actor) (job_id : ℕ) (u : Upload) (shown : Option ℕ) (now : ℕ) (db : Db)
    (r : Registered)
    → OneLive db
    → register_signature d actor job_id u shown now db ≡ ok r
    → OneLive r.db
unfolding register_signature
register_signature-OneLive d actor job_id u shown now db r one h i c =
    let (job, _, h1) = >>=-eq-ok (load_scoped_job actor job_id db) _ h in
    let (_, h2) = require-ok (is_workable job) Code.job_not_in_progress _ h1 in
    let (_, h3) =
      require-ok (checklist_completed (find_checklist job_id db)) Code.checklist_incomplete _ h2 in
    let bound = current_summary_digest d job_id db in
    let (_, h4) = require-ok (not (differ shown bound)) Code.summary_stale _ h3 in
    let (cleared, clear, h5) =
      >>=-eq-ok
        (clear_signature actor job_id now
          (find_last (is_live_signature job_id job.cycle) db.signatures) bound db)
        _ h4 in
    let (zero_live, rest) = clear_signature-Cleared actor job_id now job.cycle bound db one clear in
    subst (λ (x : Registered). count (is_live_signature i c) x.db.signatures ≤ 1) (ok-injective h5)
      (one_more_live job_id job.cycle i c cleared.signatures _ refl refl zero_live (rest i c))
