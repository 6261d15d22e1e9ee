-- ===== src/Jobs/Start/Paid.antt =====
-- `StartFromPaymentConfirm` finds the upload that was answered 200.
use ol1n_super_app.Base.{
  ap₂, ◌∙◌, ℕ, ◌≡◌, refl, ap, subst, true, false, ◌&&◌, [], ◌∷◌, ◌++◌, Bytes, same, if◌then◌else◌,
}
use ol1n_super_app.Db.Tables.{
  status_uploading, Artifact, Job, Db, ok, Ctx, is_text, status_pending_payment, job_type_upload,
}
use ol1n_super_app.Db.Artifacts.{
  awaits_payment, get_artifact_by_payment_id, mark_payment_confirmed, insert_artifact_pending,
  any_artifact,
}
use ol1n_super_app.Db.Jobs.{insert_job}
use ol1n_super_app.Jobs.Start.{
  with_path, with_job, with_row, with_artifact, submits, start_from_payment_confirm, UploadJob,
  Setup, is_upload_of,
}
use ol1n_super_app.Base.{none, some, same_iff}
use ol1n_super_app.Go.Strings.{is_nil}
use ol1n_super_app.Db.Integrity.{artifact_ids, is_in, IsIntact}
use ol1n_super_app.Jobs.Start.Inserted.{
  exec-runs, new_artifact, new_job, insert_artifact_pending-inserted, insert_job-inserted,
  find_artifact-snoc, update_artifacts-snoc, any_artifact-snoc, any_artifact-and, newest_job-new,
}

module _ (u : Setup) (c d m e r : Ctx) (job_id name content_type : Bytes) (size : ℕ)
    (invoice : Bytes) (tmp_path : Bytes) (payment_status : Bytes) (db between after : Db)
    (h : IsIntact db) where
  abbrev pub uploading : Artifact
  uploading = record (new_artifact c job_id name content_type size invoice) {
    status = status_uploading;
    payment_status = some payment_status;
    updated_at = m.now;
  }

  abbrev pub upload_of : UploadJob
  upload_of = record {
    job_id = job_id;
    artifact_id = job_id;
    filename = name;
    tmp_path = u.path_of tmp_path;
    nzb_dir = u.nzb_dir;
    poster = u.poster;
    newsgroup = u.newsgroup;
  }

  abbrev pub stored : Db
  stored = record db {
    artifacts = db.artifacts ++ (new_artifact c job_id name content_type size invoice ∷ []);
    jobs = db.jobs ++ (new_job d job_id job_id job_type_upload tmp_path ∷ []);
  }

  abbrev pub Starts : Db → Type 0
  Starts x =
      (paid : Db) × (mark_payment_confirmed m invoice payment_status x ≡ ok (paid, true))
      × (start_from_payment_confirm u e r invoice paid ≡ submits upload_of)

  module _ (fresh : any_artifact (λ a. is_text a.payment_id invoice) db.artifacts ≡ false)
      (path : is_nil tmp_path ≡ false) (p : m.refuses ≡ false) (q : e.refuses ≡ false)
      (s : r.refuses ≡ false) where
    stored_marked :
        mark_payment_confirmed m invoice payment_status stored
        ≡ ok (record stored { artifacts = db.artifacts ++ (uploading ∷ []) }, true)
    unfolding mark_payment_confirmed
    stored_marked =
        let was : awaits_payment invoice (new_artifact c job_id name content_type size invoice)
            ≡ true =
          ap₂ ◌&&◌ ((same_iff invoice invoice).1 refl)
            ((same_iff status_pending_payment status_pending_payment).1 refl) in
        let others =
          any_artifact-and (λ a. is_text a.payment_id invoice)
            (λ a. same a.status status_pending_payment) db.artifacts fresh in
        exec-runs m _ p
        ∙ ap₂ (λ as' b. ok (record stored { artifacts = as' }, b))
            (update_artifacts-snoc _ _ db.artifacts _ others was)
            (any_artifact-snoc _ db.artifacts _ was)

    marked_starts :
        is_in job_id (artifact_ids db.artifacts) ≡ false
        → start_from_payment_confirm u e r invoice
            (record stored { artifacts = db.artifacts ++ (uploading ∷ []) })
          ≡ submits upload_of
    unfolding start_from_payment_confirm get_artifact_by_payment_id
    marked_starts absent =
        let paid : Db = record stored { artifacts = db.artifacts ++ (uploading ∷ []) } in
        let j : Job = new_job d job_id job_id job_type_upload tmp_path in
        let found =
          find_artifact-snoc (λ a. is_text a.payment_id invoice) db.artifacts uploading fresh
            ((same_iff invoice invoice).1 refl) in
        let of_it : is_upload_of job_id j ≡ true =
          ap₂ ◌&&◌ ((same_iff job_id job_id).1 refl)
            ((same_iff job_type_upload job_type_upload).1 refl) in
        ap (with_artifact u r paid) (exec-runs e _ q ∙ found)
        ∙ ap (with_row u uploading) (exec-runs r _ s)
        ∙ ap (with_job u uploading)
            (newest_job-new job_id (artifact_ids db.artifacts) db.jobs j absent h.jobs_held of_it)
        ∙ ap (λ b. with_path u uploading j (if b then none else some tmp_path)) path

    pub stored-Starts :
        insert_artifact_pending c job_id name content_type size invoice db ≡ ok between
        → insert_job d job_id job_id job_type_upload tmp_path between ≡ ok after
        → Starts after
    stored-Starts i j =
        let (absent, at_between) =
          insert_artifact_pending-inserted c job_id name content_type size invoice db between i in
        let at_after =
          insert_job-inserted d job_id job_id job_type_upload tmp_path between after j in
        let at : stored ≡ after =
          ap {A = Db}
            (λ b. record b {
              jobs = b.jobs ++ (new_job d job_id job_id job_type_upload tmp_path ∷ []);
            })
            at_between
          ∙ at_after in
        subst Starts at (_, stored_marked, marked_starts absent)
