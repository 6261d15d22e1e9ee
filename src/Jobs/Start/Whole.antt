-- ===== src/Jobs/Start/Whole.antt =====
-- From the request that stores an upload to the job that its payment starts.
use ol1n_super_app.Base.{◌≡◌, true, false, some, ◌++◌, Bytes, codes, length}
use ol1n_super_app.Go.Strings.{is_nil}
use ol1n_super_app.Db.Tables.{Db, ok, Ctx, is_text}
use ol1n_super_app.Db.Artifacts.{any_artifact, mark_payment_confirmed}
use ol1n_super_app.Db.Integrity.{IsIntact}
use ol1n_super_app.Handler.Filename.{sanitize_filename}
use ol1n_super_app.Handler.Upload.{Surroundings, FormFile, init_upload, copied}
use ol1n_super_app.Handler.Upload.Stored.{type_of, init_upload-Stores}
use ol1n_super_app.Jobs.Start.{Setup, submits, start_from_payment_confirm}
use ol1n_super_app.Jobs.Start.Paid.{stored-Starts}

-- When `InitUpload` has answered 200 on intact tables, with an invoice id that no artifact had before,
-- and no statement is refused afterwards, then marking that payment confirmed advances an artifact, and
-- `StartFromPaymentConfirm` for it submits the upload of the temporary file that the request wrote: with
-- the id of the answered job for the job and for the artifact, and the form's file name, sanitized.
pub init_upload-starts :
    (s : Surroundings) (u : Setup) (c d m e r : Ctx) (job_id tmp_path payment_status : Bytes)
    (db : Db) (f : FormFile) (invoice : Bytes)
    → IsIntact db
    → (init_upload s c d job_id tmp_path db).status ≡ 200
    → s.form_file ≡ some f
    → s.create_invoice job_id (codes "Ol1n Vault upload: " ++ sanitize_filename f.filename)
      ≡ some invoice
    → any_artifact (λ a. is_text a.payment_id invoice) db.artifacts ≡ false
    → is_nil tmp_path ≡ false
    → m.refuses ≡ false
    → e.refuses ≡ false
    → r.refuses ≡ false
    → (paid : Db) × (mark_payment_confirmed m invoice payment_status
          (init_upload s c d job_id tmp_path db).db
        ≡ ok (paid, true))
      × (start_from_payment_confirm u e r invoice paid
          ≡ submits (record {
            job_id = job_id;
            artifact_id = job_id;
            filename = sanitize_filename f.filename;
            tmp_path = u.path_of tmp_path;
            nzb_dir = u.nzb_dir;
            poster = u.poster;
            newsgroup = u.newsgroup;
          }))
init_upload-starts s u c d m e r job_id tmp_path payment_status db f invoice h answered given asked
      fresh path p q t =
    let (f', invoice', between, given', asked', i, j) =
      init_upload-Stores s c d job_id tmp_path db answered in
    let same_file : f' ≡ f = cc (given, given') in
    let same_invoice : invoice' ≡ invoice = cc (asked, asked') in
    stored-Starts u c d m e r job_id (sanitize_filename f.filename) (type_of s f)
      (length (copied f)) invoice tmp_path payment_status db between _ h fresh path p q t
      (rw (same_file, same_invoice) at i) j
