-- ===== src/Jobs/Start.antt =====
-- upload_job.go: `StartFromPaymentConfirm`, up to the job that it submits.
pub mod Inserted
pub mod Paid
pub mod Whole
use ol1n_super_app.Base.{
  ℕ, Bool, true, false, ◌&&◌, Option, none, some, List, [], ◌∷◌, ltb, if◌then◌else◌, Bytes, same,
}
use ol1n_super_app.Db.Tables.{
  Artifact, Job, Db, DbError, not_found, Result, ok, err, ◌>>=◌, Ctx, exec, job_type_upload,
}
use ol1n_super_app.Db.Artifacts.{get_artifact_by_payment_id}
use ol1n_super_app.Jobs.Worker.{FilePath}
use ol1n_super_app.Jobs.Upload.{UploadJob}

-- What the handler passes on, the newsgroup of the client, and how a path is read.
pub record Setup : Type 0 where
  pub path_of : Bytes → FilePath
  pub nzb_dir : FilePath
  pub poster : Bytes
  pub newsgroup : Bytes

abbrev pub is_upload_of : Bytes → Job → Bool
is_upload_of artifact_id j = same j.artifact_id artifact_id && same j.kind job_type_upload

abbrev pub newer : Job → Option Job → Option Job
newer j none = some j
newer j (some best) = if ltb best.created_at j.created_at then some j else some best

-- `ORDER BY created_at DESC LIMIT 1` of the rows that pass the test.
unfoldable pub newest_job : (Job → Bool) → List Job → Option Job → Option Job
newest_job test [] best = best
newest_job test (j ∷ js) best = newest_job test js (if test j then newer j best else best)

-- A NULL cannot be scanned into a string.
pub data StartError : Type 0 where
  lookup_failed : DbError → StartError
  null_path : StartError

pub data Started : Type 0 where
  submits : UploadJob → Started
  failed : StartError → Started

abbrev pub with_path : Setup → Artifact → Job → Option Bytes → Started
with_path u a j none = failed null_path
with_path u a j (some tmp_path) = submits (record {
  job_id = j.id;
  artifact_id = a.id;
  filename = a.filename;
  tmp_path = u.path_of tmp_path;
  nzb_dir = u.nzb_dir;
  poster = u.poster;
  newsgroup = u.newsgroup;
})

abbrev pub with_job : Setup → Artifact → Option Job → Started
with_job u a none = failed (lookup_failed not_found)
with_job u a (some j) = with_path u a j j.tmp_path

abbrev pub with_row : Setup → Artifact → Result (Option Job) → Started
with_row u a (err e) = failed (lookup_failed e)
with_row u a (ok row) = with_job u a row

abbrev pub with_artifact : Setup → Ctx → Db → Result Artifact → Started
with_artifact u c db (err e) = failed (lookup_failed e)
with_artifact u c db (ok a) =
    with_row u a (exec c (ok (newest_job (is_upload_of a.id) db.jobs none)))

unfoldable pub start_from_payment_confirm : Setup → Ctx → Ctx → Bytes → Db → Started
unfolding newest_job
start_from_payment_confirm u c d payment_id db =
    with_artifact u d db (get_artifact_by_payment_id c payment_id db)
