-- ===== src/Evidence/Photos.antt =====
-- The limit on the photos of an attempt, and when a photo becomes READY.
use easygas_guide_server.Common.{
  ℕ, ◌+◌, ◌≤◌, Bool, true, false, Option, none, some, List, [], ◌∷◌, ◌++◌, ◌==◌, ltb, ◌≡◌, refl,
  sym, ◌∙◌, arith, find, count, update, Bool-cases, inl, inr, ap, is_some, count-append, subst,
}
use easygas_guide_server.Api.{
  Code, Result, ok, err, present-ok, require-ok, >>=-eq-ok, ok-injective,
}
use easygas_guide_server.Rbac.{Actor}
use easygas_guide_server.Jobs.{is_workable, load_scoped_job}
use easygas_guide_server.Store.{
  Db, StepStatus, step_status_eq, Photo, EvidenceStatus, is_ready, find_job, find_checklist,
}
use easygas_guide_server.Checklist.{find_step}
use easygas_guide_server.Completion.Signing.{put_ok-size}
use easygas_guide_server.Completion.Sign.{Upload, Put, stored_size, put_ok}
use easygas_guide_server.Evidence.{
  max_photos_per_attempt, counts_to_limit, RegisteredPhoto, register_photo, still_valid,
  finalize_photo, upload_photo, upload_step_photo, find_photo, new_photo, is_pending_photo,
  finish_upload, assert_photo,
}

register_photo-table :
    (actor : Actor) (job_id step_id : ℕ) (u : Upload) (db : Db) {r : RegisteredPhoto}
    → register_photo actor job_id step_id u db ≡ ok r
    → (r.db.photos ≡ db.photos ++ new_photo db.next_id job_id step_id r.attempt actor.id u ∷ [])
      × (ltb (count (counts_to_limit step_id r.attempt) db.photos) max_photos_per_attempt ≡ true)
unfolding register_photo
register_photo-table actor job_id step_id u db h =
    let (job, _, h1) = present-ok (find_job job_id db) Code.job_not_in_progress _ h in
    let (_, h2) = require-ok (is_workable job) Code.job_not_in_progress _ h1 in
    let (c, _, h3) = present-ok (find_checklist job_id db) Code.not_found _ h2 in
    let (s, _, h4) = present-ok (find_step step_id c.id db) Code.not_found _ h3 in
    let (_, h5) =
      require-ok (step_status_eq s.status StepStatus.pending) Code.step_not_pending _ h4 in
    let (few, h6) =
      require-ok (ltb (count (counts_to_limit step_id s.attempt) db.photos) max_photos_per_attempt)
        Code.photo_limit _ h5 in
    rw (← ok-injective h6) (refl, few)

one_photo :
    (step_id at step attempt : ℕ) (ps : List Photo) (p : Photo)
    → p.job_step_id ≡ step_id
    → p.attempt ≡ at
    → ltb (count (counts_to_limit step_id at) ps) max_photos_per_attempt ≡ true
    → count (counts_to_limit step attempt) ps ≤ max_photos_per_attempt
    → count (counts_to_limit step attempt) (ps ++ p ∷ []) ≤ max_photos_per_attempt
unfolding count counts_to_limit
one_photo step_id at step attempt ps p s a few limit =
    rw (count-append (counts_to_limit step attempt) ps (p ∷ []))
      (elim (Bool-cases (counts_to_limit step attempt p)) [
        | inl hit ↦
            let (same_step, same_attempt) = hit_keys step attempt p hit in
            let k : step_id ≡ step = sym s ∙ same_step in
            let l : at ≡ attempt = sym a ∙ same_attempt in
            let room : ltb (count (counts_to_limit step attempt) ps) max_photos_per_attempt ≡ true =
              rw (k, l) at few in
            hit_room step attempt ps p hit room
        | inr miss ↦ miss_room step attempt ps p miss limit
      ])
  where
    hit_keys :
        (step attempt : ℕ) (p : Photo)
        → counts_to_limit step attempt p ≡ true
        → (p.job_step_id ≡ step) × (p.attempt ≡ attempt)
    hit_keys step attempt p h = ground arith

    hit_room :
        (step attempt : ℕ) (ps : List Photo) (p : Photo)
        → counts_to_limit step attempt p ≡ true
        → ltb (count (counts_to_limit step attempt) ps) max_photos_per_attempt ≡ true
        → count (counts_to_limit step attempt) ps + count (counts_to_limit step attempt) (p ∷ [])
          ≤ max_photos_per_attempt
    hit_room step attempt ps p hit room = rw hit (ground arith)

    miss_room :
        (step attempt : ℕ) (ps : List Photo) (p : Photo)
        → counts_to_limit step attempt p ≡ false
        → count (counts_to_limit step attempt) ps ≤ max_photos_per_attempt
        → count (counts_to_limit step attempt) ps + count (counts_to_limit step attempt) (p ∷ [])
          ≤ max_photos_per_attempt
    miss_room step attempt ps p miss limit = rw miss (ground arith)

-- The limit of photos holds for every step and attempt.
abbrev pub WithinLimit : Db → Type 0
WithinLimit db =
    (step attempt : ℕ) → count (counts_to_limit step attempt) db.photos ≤ max_photos_per_attempt

-- Where every step and attempt has at most ten PENDING and READY photos, this still holds after
-- the registration of a photo.
pub register_photo-WithinLimit :
    (actor : Actor) (job_id step_id : ℕ) (u : Upload) (db : Db) (r : RegisteredPhoto)
    → WithinLimit db
    → register_photo actor job_id step_id u db ≡ ok r
    → WithinLimit r.db
register_photo-WithinLimit actor job_id step_id u db r limit h step attempt =
    let (table, few) = register_photo-table actor job_id step_id u db h in
    rw table (
      one_photo step_id r.attempt step attempt db.photos
        (new_photo db.next_id job_id step_id r.attempt actor.id u) refl refl few
        (limit step attempt))

find_photo-ready :
    (id : ℕ) (ps : List Photo)
    → is_some (find (λ p. p.id == id) ps) ≡ true
    → (p : Photo) × (find
          (λ p. p.id == id)
          (update (λ p. p.id == id) (λ p. record p { status = EvidenceStatus.ready }) ps)
        ≡ some p)
      × (is_ready p.status ≡ true)
unfolding find update
find_photo-ready id [] h = absurd (ground arith)
find_photo-ready id (p ∷ ps) h = elim (Bool-cases (p.id == id)) [
  | inl hit ↦ (record p { status = EvidenceStatus.ready }, rw (hit, hit) refl, refl)
  | inr miss ↦
      let (q, seen, ready) = find_photo-ready id ps (rw miss at h) in
      (q, rw (miss, miss) seen, ready)
]

pending-some : (o : Option Photo) → is_pending_photo o ≡ true → is_some o ≡ true
pending-some none h = absurd (ground arith)
pending-some (some p) h = refl

finalize_photo-true :
    (actor : Actor) (job_id step_id id attempt : ℕ) (db : Db)
    → (finalize_photo actor job_id step_id id attempt db).0 ≡ true
    → (still_valid job_id step_id attempt db ≡ true)
      × ((p : Photo) × (find_photo id (finalize_photo actor job_id step_id id attempt db).1
            ≡ some p)
          × (is_ready p.status ≡ true))
unfolding finalize_photo
finalize_photo-true actor job_id step_id id attempt db h =
    elim (Bool-cases (is_pending_photo (find_photo id db))) [
      | inr settled ↦ absurd (ground arith)
      | inl pending ↦ elim (Bool-cases (still_valid job_id step_id attempt db)) [
        | inr stale ↦ absurd (ground arith)
        | inl valid ↦ (
          valid,
          rw (pending, valid)
              (find_photo-ready id db.photos (pending-some (find_photo id db) pending)),
        )
      ]
    ]

-- What has happened when an upload is confirmed.
pub record Confirmed (job_id step_id : ℕ) (u : Upload) (put : Put) (between : Db → Db)
    (registered : RegisteredPhoto) (r : Db) : Type 0 where
  pub stored : put ≡ stored_size u.size
  pub valid : still_valid job_id step_id registered.attempt (between registered.db) ≡ true
  pub ready : (p : Photo) × (find_photo registered.id r ≡ some p) × (is_ready p.status ≡ true)

upload_photo-Confirmed :
    (actor : Actor) (job_id step_id : ℕ) (u : Upload) (put : Put) (between : Db → Db)
    (result : Result RegisteredPhoto) (db r : Db)
    → upload_photo actor job_id step_id u put between result db ≡ (r, ok tt)
    → (reg : RegisteredPhoto) × (result ≡ ok reg) × Confirmed job_id step_id u put between reg r
unfolding upload_photo
upload_photo-Confirmed actor job_id step_id u put between (err e) db r h = absurd (ground arith)
upload_photo-Confirmed actor job_id step_id u put between (ok reg) db r h =
    elim (Bool-cases (put_ok put u.size)) [
      | inr lost ↦ absurd (ground arith)
      | inl kept ↦
          let done = finalize_photo actor job_id step_id reg.id reg.attempt (between reg.db) in
          let (finished, table) = finish_upload-ok done (rw (upload_photo, kept) at h) in
          let (valid, ready) =
            finalize_photo-true actor job_id step_id reg.id reg.attempt (between reg.db) finished in
          (
            reg,
            refl,
            record {
              stored = put_ok-size put u.size kept;
              valid = valid;
              ready =
                  subst
                    (λ x. (p : Photo) × (find_photo reg.id x ≡ some p) × (is_ready p.status ≡ true))
                    table ready;
            },
          )
    ]
  where
    finish_upload-ok :
        {r : Db} (m : Bool × Db) → finish_upload m ≡ (r, ok tt) → (m.0 ≡ true) × (m.1 ≡ r)
    finish_upload-ok (true, db) h = (refl, ap (λ x. x.0) h)
    finish_upload-ok (false, db) h = absurd (ground arith)

-- An upload that is confirmed was registered for the step, the storage stored exactly its size,
-- the job was still workable and the step still pending at the same attempt when it was finalized,
-- and its photo is READY.
pub upload_step_photo-Confirmed :
    (actor : Actor) (job_id step_id : ℕ) (u : Upload) (put : Put) (between : Db → Db)
    (before db r : Db)
    → upload_step_photo actor job_id step_id u put between before db ≡ (r, ok tt)
    → (reg : RegisteredPhoto) × (register_photo actor job_id step_id u db ≡ ok reg)
      × Confirmed job_id step_id u put between reg r
unfolding upload_step_photo
upload_step_photo-Confirmed actor job_id step_id u put between before db r h =
    let (reg, result, confirmed) =
      upload_photo-Confirmed actor job_id step_id u put between _ db r h in
    let (job, _, h1) = >>=-eq-ok (load_scoped_job actor job_id before) _ result in
    let (_, h2) = require-ok (is_workable job) Code.job_not_in_progress _ h1 in
    let (_, _, h3) = >>=-eq-ok (assert_photo u) _ h2 in (reg, h3, confirmed)
