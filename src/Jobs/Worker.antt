-- ===== src/Jobs/Worker.antt =====
-- worker.go. A job runs on a store: the tables, the events that were published, each with its key, the
-- files on disk, and the articles that the provider took, the oldest first.
pub mod Life
pub mod Slots
use ol1n_super_app.Base.{
  ◌&&◌, ℕ, ◌≡◌, refl, Bool, true, false, Option, none, some, List, [], ◌∷◌, ◌++◌, if◌then◌else◌,
  Bytes, same, codes,
}
use ol1n_super_app.Base.Ints.{ℤ, pos, is_positive, pos_part}
use ol1n_super_app.Db.Tables.{Db, Ctx, after, job_running, job_failed, job_done}
use ol1n_super_app.Db.Jobs.{update_job_status, update_job_progress, mark_job_done, mark_job_failed}

-- `Event`, published as its JSON text.
pub record Event : Type 0 where
  pub status : Bytes
  pub progress : ℤ
  pub artifact_id : Bytes
  pub download_url : Bytes
  pub content_type : Bytes
  pub error : Bytes

abbrev pub no_event : Event
no_event = record {
  status = [];
  progress = pos 0;
  artifact_id = [];
  download_url = [];
  content_type = [];
  error = [];
}

-- A path is its components: a directory and a name below it.
abbrev pub FilePath : Type 0
FilePath = List Bytes

unfoldable pub same_path : FilePath → FilePath → Bool
unfolding same
same_path [] [] = true
same_path (a ∷ as') (b ∷ bs) = same a b && same_path as' bs
same_path _ _ = false

unfoldable pub find_file : FilePath → List (FilePath × Bytes) → Option Bytes
unfolding same_path
find_file path [] = none
find_file path ((p, content) ∷ rest) =
    if same_path p path then some content else find_file path rest

unfoldable pub remove_file : FilePath → List (FilePath × Bytes) → List (FilePath × Bytes)
unfolding same_path
remove_file path [] = []
remove_file path ((p, content) ∷ rest) =
    let others = remove_file path rest in if same_path p path then others else (p, content) ∷ others

-- The newest file of a path is in front.
abbrev pub write_file : FilePath → Bytes → List (FilePath × Bytes) → List (FilePath × Bytes)
write_file path content files = (path, content) ∷ files

pub record Store : Type 0 where
  pub db : Db
  pub events : List (Bytes × Event)
  pub files : List (FilePath × Bytes)
  pub articles : List (Bytes × Bytes)  -- message id and body

-- `NewWorker`: how many jobs run at a time.
abbrev pub new_worker : ℤ → ℕ
new_worker concurrency = if is_positive concurrency then pos_part concurrency else 2

abbrev pub publish : Bytes → Event → Store → Store
publish id e s = record s { events = s.events ++ ((id, e) ∷ []) }

-- `Progress`; the error of the statement is dropped.
unfoldable pub progress : Ctx → Bytes → ℤ → Store → Store
progress c id pct s =
    publish id (record no_event { status = job_running; progress = pct })
      (record s { db = after s.db (update_job_progress c id pct s.db) })

-- `Done`
unfoldable pub done : Ctx → Bytes → Event → Store → Store
done c id e s =
    publish id (record e { status = job_done; progress = pos 100 })
      (record s { db = after s.db (mark_job_done c id e.download_url s.db) })

-- The error's text is recorded with the job and published.
unfoldable pub report : Ctx → Bytes → Bytes → Store → Store
report c id text s =
    publish id (record no_event { status = job_failed; error = text })
      (record s { db = after s.db (mark_job_failed c id text s.db) })

unfoldable pub begin_job : Ctx → Bytes → Store → Store
begin_job c id s =
    publish id (record no_event { status = job_running })
      (record s { db = after s.db (update_job_status c id job_running (pos 0) s.db) })

-- What `Run` has come to: its error, if any.
module _ {ℓ} {E : Type ℓ} where
  abbrev pub finish_job : Ctx → Bytes → (E → Bytes) → Store × Option E → Store
  finish_job c id text (s, none) = s
  finish_job c id text (s, some e) = report c id (text e) s

  -- The goroutine of `Submit`, with the job's `Run`.
  unfoldable pub submit :
      Ctx → Ctx → Bytes → (E → Bytes) → (Store → Store × Option E) → Store → Store
  unfolding begin_job report
  submit first last id text run s = finish_job last id text (run (begin_job first id s))
