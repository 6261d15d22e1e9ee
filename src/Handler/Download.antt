-- ===== src/Handler/Download.antt =====
-- download.go: the handlers `request` and `serveFile`.
pub mod Access
use ol1n_super_app.Base.{
  ℕ, ◌≤◌, ◌≡◌, refl, ◌⊎◌, inl, inr, Bool, true, false, not, ◌&&◌, ◌||◌, Option, none, some, List,
  [], ◌∷◌, arith, ltb, if◌then◌else◌, Bytes, same, same_iff, Bool-cases,
}
use ol1n_super_app.Go.Strings.{is_nil}
use ol1n_super_app.Db.Tables.{
  Db, Artifact, DownloadToken, Result, ok, err, not_found, Ctx, status_ready, status_notarized,
  job_type_download,
}
use ol1n_super_app.Db.Artifacts.{get_artifact}
use ol1n_super_app.Db.Jobs.{insert_job}
use ol1n_super_app.Db.Tokens.{get_download_token}
use ol1n_super_app.Handler.Filename.{is_bad_filename}

-- What the handler reads off the artifact for the job that it submits.
pub record DownloadJob : Type 0 where
  pub job_id : Bytes
  pub artifact_id : Bytes
  pub filename : Bytes
  pub content_type : Bytes
  pub nzb_path : Bytes

-- The status, the tables behind the call, and the job that it submits.
pub record Reply : Type 0 where
  pub status : ℕ
  pub db : Db
  pub submits : Option DownloadJob

abbrev reply : ℕ → Db → Reply
reply status db = record { status = status; db = db; submits = none }

inserted : Bytes → Artifact → Bytes → Db → Result Db → Reply
inserted job_id a nzb_path db (err e) = reply 500 db
inserted job_id a nzb_path db (ok db') = record {
  status = 200;
  db = db';
  submits = some (record {
    job_id = job_id;
    artifact_id = a.id;
    filename = a.filename;
    content_type = a.content_type;
    nzb_path = nzb_path;
  });
}

with_nzb : Ctx → Bytes → Artifact → Db → Option Bytes → Reply
with_nzb c job_id a db none = reply 500 db
with_nzb c job_id a db (some nzb_path) =
    inserted job_id a nzb_path db (insert_job c job_id a.id job_type_download [] db)

abbrev pub is_stored : Artifact → Bool
is_stored a = same a.status status_ready || same a.status status_notarized

looked_up : Ctx → Bytes → Db → Result Artifact → Reply
looked_up c job_id db (err not_found) = reply 404 db
looked_up c job_id db (err e) = reply 500 db
looked_up c job_id db (ok a) =
    if is_stored a then with_nzb c job_id a db a.nzb_path else reply 409 db

-- The two statements have a context each; the job's id is drawn at random.
unfoldable pub request : Ctx → Ctx → Bytes → Bytes → Db → Reply
unfolding looked_up with_nzb inserted
request read write job_id artifact_id db =
    looked_up write job_id db (get_artifact read artifact_id db)

-- A file below the directory of the artifact, with the type to announce, or a status.
pub data Served : Type 0 where
  refused : ℕ → Served
  file : Bytes → Bytes → Option Bytes → Served

announced : Result Artifact → Option Bytes
announced (err e) = none
announced (ok a) = if is_nil a.content_type then none else some a.content_type

with_token : Ctx → ℕ → Bytes → Db → Result DownloadToken → Served
with_token c now filename db (err not_found) = refused 404
with_token c now filename db (err e) = refused 500
with_token c now filename db (ok tok) =
    if ltb tok.expires_at now
    then refused 410
    else if is_bad_filename filename
    then refused 400
    else file tok.artifact_id filename (announced (get_artifact c tok.artifact_id db))

unfoldable pub serve_file : Ctx → ℕ → Ctx → Bytes → Bytes → Db → Served
unfolding with_token announced
serve_file read now reread token filename db =
    with_token reread now filename db (get_download_token read token db)
