-- ===== src/Db/Tables.antt =====
-- The rows of migrations/001_init.sql, in the order of their insertion, and what SQLite checks on a
-- write: the primary keys, and the references that db.go turns on with `foreign_keys(ON)`.
-- Times are seconds since 1970 and are not negative.
use ol1n_super_app.Base.{
  ℕ, Bool, true, false, not, ◌&&◌, ◌||◌, Option, none, some, List, [], ◌∷◌, if◌then◌else◌, Bytes,
  codes, same,
}
use ol1n_super_app.Base.Ints.{ℤ}

abbrev pub status_pending_payment : Bytes
status_pending_payment = codes "pending_payment"

abbrev pub status_uploading : Bytes
status_uploading = codes "uploading"

abbrev pub status_ready : Bytes
status_ready = codes "ready"

abbrev pub status_notarized : Bytes
status_notarized = codes "notarized"

abbrev pub status_failed : Bytes
status_failed = codes "failed"

abbrev pub job_queued : Bytes
job_queued = codes "queued"

abbrev pub job_running : Bytes
job_running = codes "running"

abbrev pub job_done : Bytes
job_done = codes "done"

abbrev pub job_failed : Bytes
job_failed = codes "failed"

abbrev pub job_type_upload : Bytes
job_type_upload = codes "upload"

abbrev pub job_type_download : Bytes
job_type_download = codes "download"

-- A `sql.NullString` is an `Option Bytes`.
pub record Artifact : Type 0 where
  pub id : Bytes
  pub filename : Bytes
  pub content_type : Bytes
  pub size_bytes : ℕ
  pub nzb_path : Option Bytes
  pub status : Bytes
  pub payment_id : Option Bytes
  pub payment_status : Option Bytes
  pub tx_hash : Option Bytes
  pub created_at : ℕ
  pub updated_at : ℕ

pub record Job : Type 0 where
  pub id : Bytes
  pub artifact_id : Bytes
  pub kind : Bytes  -- the column and field `type`
  pub status : Bytes
  pub progress : ℤ
  pub error_msg : Option Bytes
  pub result_url : Option Bytes
  pub tmp_path : Option Bytes
  pub created_at : ℕ
  pub updated_at : ℕ

pub record DownloadToken : Type 0 where
  pub token : Bytes
  pub artifact_id : Bytes
  pub expires_at : ℕ
  pub created_at : ℕ

pub record Db : Type 0 where
  pub foreign_keys : Bool
  pub artifacts : List Artifact
  pub jobs : List Job
  pub download_tokens : List DownloadToken

-- The tables of a database that `Open` has just made.
abbrev pub fresh_db : Db
fresh_db = record { foreign_keys = true; artifacts = []; jobs = []; download_tokens = [] }

-- `refused`: the context is done, or the driver fails.
pub data DbError : Type 0 where
  not_found constraint refused : DbError

pub data Result {ℓ} (A : Type ℓ) : Type ℓ where
  ok : A → Result A
  err : DbError → Result A

infixl 5 ◌>>=◌
abbrev pub ◌>>=◌ {ℓ κ} : {A : Type ℓ} {B : Type κ} → Result A → (A → Result B) → Result B
ok a >>= f = f a
err e >>= f = err e

-- The moment of a statement: the clock that `unixepoch()` and `time.Now()` read, and whether the
-- statement is refused.
pub record Ctx : Type 0 where
  pub now : ℕ
  pub refuses : Bool

abbrev pub exec {ℓ} : {A : Type ℓ} → Ctx → Result A → Result A
exec c r = if c.refuses then err refused else r

-- The database behind a call whose error the caller drops: a failed statement changes nothing.
abbrev pub after : Db → Result Db → Db
after db (ok db') = db'
after db (err e) = db

abbrev pub is_text : Option Bytes → Bytes → Bool
is_text none t = false
is_text (some s) t = same s t

unfoldable pub has_artifact : Bytes → List Artifact → Bool
has_artifact i [] = false
has_artifact i (a ∷ as') = same a.id i || has_artifact i as'

unfoldable pub has_job : Bytes → List Job → Bool
has_job i [] = false
has_job i (j ∷ js) = same j.id i || has_job i js

unfoldable pub has_token : Bytes → List DownloadToken → Bool
has_token i [] = false
has_token i (t ∷ ts) = same t.token i || has_token i ts

-- `REFERENCES artifacts(id)` of the two tables.
unfoldable pub jobs_refer : List Artifact → List Job → Bool
jobs_refer as' [] = true
jobs_refer as' (j ∷ js) = has_artifact j.artifact_id as' && jobs_refer as' js

unfoldable pub tokens_refer : List Artifact → List DownloadToken → Bool
tokens_refer as' [] = true
tokens_refer as' (t ∷ ts) = has_artifact t.artifact_id as' && tokens_refer as' ts

abbrev pub references_hold : Db → Bool
references_hold db = jobs_refer db.artifacts db.jobs && tokens_refer db.artifacts db.download_tokens

-- The check at the end of a statement; the references are not deferred.
abbrev pub checked : Db → Result Db
checked db = if db.foreign_keys && not (references_hold db) then err constraint else ok db
