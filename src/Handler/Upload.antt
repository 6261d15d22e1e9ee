-- ===== src/Handler/Upload.antt =====
-- upload.go: `initUpload`, with what the request and the calls of other services give as data.
pub mod Complete
pub mod Stored
pub mod Invoiced
use ol1n_super_app.Base.{
  ◌++◌, ℕ, ◌+◌, ◌*◌, ◌^◌, ◌≡◌, refl, Bool, true, false, not, ◌||◌, Option, none, some, List, [],
  ◌∷◌, arith, ltb, if◌then◌else◌, Bytes, codes, length, take,
}
use ol1n_super_app.Go.Strings.{is_nil}
use ol1n_super_app.Db.Tables.{Db, Result, ok, err, Ctx, job_type_upload}
use ol1n_super_app.Db.Artifacts.{insert_artifact_pending}
use ol1n_super_app.Db.Jobs.{insert_job}
use ol1n_super_app.Handler.Filename.{sanitize_filename}

abbrev pub max_upload_size : ℕ
max_upload_size = 4 * 2 ^ 30

-- The part `file` of the form.
pub record FormFile : Type 0 where
  pub size : ℕ
  pub filename : Bytes
  pub content_type : Bytes
  pub content : Bytes

-- What the calls answer: the form, the directory, the file and the copy, with what a copy that fails has
-- written, the type that is sniffed, the invoice's id for a job and a description, and whether the
-- one `os.Remove` on the way out works.
pub record Surroundings : Type 0 where
  pub parses : Bool
  pub form_file : Option FormFile
  pub makes_dir : Bool
  pub creates : Bool
  pub copies : Bool
  pub partial : Bytes
  pub sniffed : Bytes
  pub create_invoice : Bytes → Bytes → Option Bytes
  pub removes : Bool

-- The status, the tables, and what the temporary file holds in the end.
pub record Outcome : Type 0 where
  pub status : ℕ
  pub db : Db
  pub tmp : Option Bytes

-- Before the temporary file is made.
abbrev failure : ℕ → Db → Outcome
failure status db = record { status = status; db = db; tmp = none }

-- With the file made: it is removed, and the error of the removal is dropped.
abbrev discarded : Bool → Bytes → ℕ → Db → Outcome
discarded removes content status db = record {
  status = status;
  db = db;
  tmp = if removes then none else some content;
}

job_stored : Bool → Bytes → Db → Result Db → Outcome
job_stored removes content db (err e) = discarded removes content 500 db
job_stored removes content db (ok db') = record { status = 200; db = db'; tmp = some content }

-- The artifact gets the job's id; it stays where the job cannot be stored.
artifact_stored : Bool → Ctx → Bytes → Bytes → Bytes → Db → Result Db → Outcome
artifact_stored removes c job_id tmp_path content db (err e) = discarded removes content 500 db
artifact_stored removes c job_id tmp_path content db (ok db') =
    job_stored removes content db' (insert_job c job_id job_id job_type_upload tmp_path db')

invoiced : Bool → Ctx → Ctx → Bytes → Bytes → Bytes → Bytes → Bytes → Db → Option Bytes → Outcome
invoiced removes c d job_id tmp_path filename content_type content db none =
    discarded removes content 502 db
invoiced removes c d job_id tmp_path filename content_type content db (some invoice_id) =
    artifact_stored removes d job_id tmp_path content db
      (insert_artifact_pending c job_id filename content_type (length content) invoice_id db)

-- `io.Copy` of at most one byte more than what is allowed.
abbrev pub copied : FormFile → Bytes
copied f = take (max_upload_size + 1) f.content

with_file : Surroundings → Ctx → Ctx → Bytes → Bytes → Db → Option FormFile → Outcome
with_file s c d job_id tmp_path db none = failure 400 db
with_file s c d job_id tmp_path db (some f) =
    if ltb max_upload_size f.size
    then failure 413 db
    else if not s.makes_dir || not s.creates
    then failure 500 db
    else if not s.copies || ltb max_upload_size (length (copied f))
    then discarded s.removes (if s.copies then copied f else s.partial) 500 db
    else (let filename = sanitize_filename f.filename in
        invoiced s.removes c d job_id tmp_path filename
          (if is_nil f.content_type then s.sniffed else f.content_type) (copied f) db
          (s.create_invoice job_id (codes "Ol1n Vault upload: " ++ filename)))

-- The job's id is drawn at random, and `tmp_path` is its file in `TmpDir`.
unfoldable pub init_upload : Surroundings → Ctx → Ctx → Bytes → Bytes → Db → Outcome
unfolding with_file invoiced artifact_stored job_stored
init_upload s c d job_id tmp_path db =
    if not s.parses then failure 400 db else with_file s c d job_id tmp_path db s.form_file
