-- ===== src/Completion/Signing.antt =====
-- What has happened when a signature is confirmed.
use easygas_guide_server.Common.{
  ℕ, Bool, true, false, Option, none, some, List, [], ◌∷◌, ◌==◌, ◌≡◌, refl, arith, find, update,
  Bool-cases, inl, inr, ap, is_some, ==-eq, subst,
}
use easygas_guide_server.Api.{Code, Result, ok, err, >>=-eq-ok}
use easygas_guide_server.Rbac.{Actor}
use easygas_guide_server.Store.{Db, Signature, EvidenceStatus, is_ready, find_job}
use easygas_guide_server.Completion.Summary.{Digests}
use easygas_guide_server.Completion.Sign.{
  Upload, Put, stored_size, storage_error, put_ok, assert_image, max_signature_bytes, Registered,
  register_signature, find_signature, is_pending_row, still_signable, finalize_signature,
  finish_upload, upload_signature, save_signature,
}

pub put_ok-size : (put : Put) (n : ℕ) → put_ok put n ≡ true → put ≡ stored_size n
put_ok-size (stored_size m) n h = ap stored_size (==-eq m n h)
put_ok-size storage_error n h = absurd (ground arith)

find_signature-ready :
    (id : ℕ) (gs : List Signature)
    → is_some (find (λ g. g.id == id) gs) ≡ true
    → (g : Signature) × (find
          (λ g. g.id == id)
          (update (λ g. g.id == id) (λ g. record g { status = EvidenceStatus.ready }) gs)
        ≡ some g)
      × (is_ready g.status ≡ true)
unfolding find update
find_signature-ready id [] h = absurd (ground arith)
find_signature-ready id (g ∷ gs) h = elim (Bool-cases (g.id == id)) [
  | inl hit ↦ (record g { status = EvidenceStatus.ready }, rw (hit, hit) refl, refl)
  | inr miss ↦
      let (q, seen, ready) = find_signature-ready id gs (rw miss at h) in
      (q, rw (miss, miss) seen, ready)
]

pending_some : (o : Option Signature) → is_pending_row o ≡ true → is_some o ≡ true
pending_some none h = absurd (ground arith)
pending_some (some g) h = refl

finalize_signature-true :
    (actor : Actor) (job_id id cycle : ℕ) (db : Db)
    → (finalize_signature actor job_id id cycle db).0 ≡ true
    → (still_signable cycle (find_job job_id db) ≡ true)
      × ((g : Signature) × (find_signature id (finalize_signature actor job_id id cycle db).1
            ≡ some g)
          × (is_ready g.status ≡ true))
unfolding finalize_signature
finalize_signature-true actor job_id id cycle db h =
    elim (Bool-cases (is_pending_row (find_signature id db))) [
      | inr settled ↦ absurd (ground arith)
      | inl pending ↦ elim (Bool-cases (still_signable cycle (find_job job_id db))) [
        | inr stale ↦ absurd (ground arith)
        | inl valid ↦ (
          valid,
          rw (pending, valid)
              (find_signature-ready id db.signatures (pending_some (find_signature id db) pending)),
        )
      ]
    ]

-- What has happened when the request is answered with success.
pub record Signed (job_id : ℕ) (u : Upload) (put : Put) (between : Db → Db)
    (registered : Registered) (r : Db) : Type 0 where
  pub stored : put ≡ stored_size u.size
  pub signable : still_signable registered.cycle (find_job job_id (between registered.db)) ≡ true
  pub ready :
      (g : Signature) × (find_signature registered.id r ≡ some g) × (is_ready g.status ≡ true)

upload_signature-Signed :
    (actor : Actor) (job_id : ℕ) (u : Upload) (put : Put) (between : Db → Db)
    (result : Result Registered) (db r : Db)
    → upload_signature actor job_id u put between result db ≡ (r, ok tt)
    → (reg : Registered) × (result ≡ ok reg) × Signed job_id u put between reg r
unfolding upload_signature
upload_signature-Signed actor job_id u put between (err e) db r h = absurd (ground arith)
upload_signature-Signed actor job_id u put between (ok reg) db r h =
    elim (Bool-cases (put_ok put u.size)) [
      | inr lost ↦ absurd (ground arith)
      | inl kept ↦
          let done = finalize_signature actor job_id reg.id reg.cycle (between reg.db) in
          let (finished, table) = finish_upload-ok done (rw (upload_signature, kept) at h) in
          let (valid, ready) =
            finalize_signature-true actor job_id reg.id reg.cycle (between reg.db) finished in
          (
            reg,
            refl,
            record {
              stored = put_ok-size put u.size kept;
              signable = valid;
              ready =
                  subst
                    (λ x.
                      (g : Signature) × (find_signature reg.id x ≡ some g)
                      × (is_ready g.status ≡ true))
                    table ready;
            },
          )
    ]
  where
    finish_upload-ok :
        {r : Db} (m : Bool × Db)
        → finish_upload m Code.job_state_changed ≡ (r, ok tt)
        → (m.0 ≡ true) × (m.1 ≡ r)
    finish_upload-ok (true, db) h = (refl, ap (λ x. x.0) h)
    finish_upload-ok (false, db) h = absurd (ground arith)

-- A signature that is confirmed was registered under the job's lock, the storage stored exactly its
-- size, the job was still workable in the same cycle when it was finalized, and its row is READY.
pub save_signature-Signed :
    (d : Digests) (actor : Actor) (job_id : ℕ) (u : Upload) (shown : Option ℕ) (now : ℕ) (put : Put)
    (between : Db → Db) (db r : Db)
    → save_signature d actor job_id u shown now put between db ≡ (r, ok tt)
    → (reg : Registered) × (register_signature d actor job_id u shown now db ≡ ok reg)
      × Signed job_id u put between reg r
unfolding save_signature
save_signature-Signed d actor job_id u shown now put between db r h =
    let (reg, result, signed) = upload_signature-Signed actor job_id u put between _ db r h in
    let (_, _, h1) = >>=-eq-ok (assert_image max_signature_bytes u) _ result in (reg, h1, signed)
