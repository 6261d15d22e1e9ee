-- ===== src/Jobs/Upload/Blocked.antt =====
-- `Run` against the references that the schema declares and `Open` turns on.
use ol1n_super_app.Base.{
  ◌⊎◌, if◌then◌else◌, not, ℕ, ◌+◌, ◌≡◌, refl, ap, ◌∙◌, Bool, true, false, Option, none, some, List,
  [], ◌∷◌, ◌++◌, Bytes, arith, length, Bool-cases, inl, inr, is_empty,
}
use ol1n_super_app.Go.Crc.{checksum_ieee}
use ol1n_super_app.Go.Hex.{hex_encode}
use ol1n_super_app.Db.Tables.{Job, Db, ok, err, Ctx, DbError, has_artifact, job_failed, has_job}
use ol1n_super_app.Db.Artifacts.{promote_artifact_to_ready}
use ol1n_super_app.Db.Jobs.{find_job}
use ol1n_super_app.Db.Artifacts.Promotion.{has_job_of, promote-fails}
use ol1n_super_app.Nntp.Segments.{Segment}
use ol1n_super_app.Nntp.Nzb.{NzbSegment}
use ol1n_super_app.Jobs.Worker.{report, write_file, Event, no_event, Store, begin_job, submit}
use ol1n_super_app.Jobs.Worker.Life.{
  SameRows, SameRows-refl, SameRows-trans, progress-SameRows, begin_job-SameRows, report-SameRows,
  report-event, report-job,
}
use ol1n_super_app.Jobs.Upload.{
  write_failed, promote_failed, dir_failed, empty_file, nzb_name, parts_of, read_failed, xml_failed,
  promoted, run_data, with_nzb, after_posting, UploadEnv, UploadJob, RunError, Posted, posted,
  stopped, posted_round, after_part, post_parts, post_all, upload_run,
}

promote-err :
    (c : Ctx) (old_id new_id nzb_path : Bytes) (db : Db)
    → db.foreign_keys ≡ true
    → has_artifact new_id db.artifacts ≡ false
    → has_job_of old_id db.jobs ≡ true
    → (e : DbError) × (promote_artifact_to_ready c old_id new_id nzb_path db ≡ err e)
unfolding promote_artifact_to_ready
promote-err c old_id new_id nzb_path db on free h = elim (Bool-cases c.refuses) [
  | inl e ↦ (DbError.refused, ground arith)
  | inr e ↦ (_, promote-fails c old_id new_id nzb_path db e on free h)
]

module _ (env : UploadEnv) (j : UploadJob) where
  -- A run that ends in an error, with the same rows.
  abbrev Fails : Db → Store × Option RunError → Type 0
  Fails db r = (e : RunError) × (r.1 ≡ some e) × SameRows r.0.db db

  Fails-if :
      (db : Db) (b : Bool) (x y : Store × Option RunError)
      → Fails db x
      → Fails db y
      → Fails db (if b then x else y)
  Fails-if db true x y h k = h
  Fails-if db false x y h k = k

  after_part-SameRows :
      (total size crc i : ℕ) (seg : Segment) (s : Store)
      → SameRows (after_part env j total size crc i seg s).db s.db
  after_part-SameRows total size crc i seg s = progress-SameRows (env.progress_ctx i) j.job_id _ _

  posted_round-SameRows :
      (b : Bool) (n : ℕ) (x : NzbSegment) (s : Store) (r : Store × Posted)
      → SameRows r.0.db s.db
      → SameRows (posted_round b n x s r).0.db s.db
  posted_round-SameRows false n x s r h = SameRows-refl s.db
  posted_round-SameRows true n x s r h = h

  post_parts-SameRows :
      (total size crc i : ℕ) (segs : List Segment) (s : Store)
      → SameRows (post_parts env j total size crc i segs s).0.db s.db
  unfolding post_parts
  post_parts-SameRows total size crc i [] s = SameRows-refl s.db
  post_parts-SameRows total size crc i (seg ∷ segs) s = posted_round-SameRows _ _ _ s _ (
      SameRows-trans
        (post_parts env j total size crc (i + 1) segs
          (after_part env j total size crc i seg s)).0.db
        (after_part env j total size crc i seg s).db s.db
        (post_parts-SameRows total size crc (i + 1) segs (after_part env j total size crc i seg s))
        (after_part-SameRows total size crc i seg s))

  module _ (db : Db) (on : db.foreign_keys ≡ true)
      (has_one : has_job_of j.artifact_id db.jobs ≡ true)
      (free : (nzb : Bytes) → has_artifact (hex_encode (env.sha256 nzb)) db.artifacts ≡ false) where
    not_promoted :
        (s : Store) (nzb : Bytes)
        → SameRows s.db db
        → Fails db (
            promoted env j
              (hex_encode (env.sha256 nzb))
              (record s { files = write_file (j.nzb_dir ++ (nzb_name env j nzb ∷ [])) nzb s.files })
              (promote_artifact_to_ready env.promote_ctx j.artifact_id
                (hex_encode (env.sha256 nzb))
                (nzb_name env j nzb)
                s.db))
    unfolding promoted
    not_promoted s nzb (same_keys, same_artifacts, same_jobs, same_ids) =
        let hash = hex_encode (env.sha256 nzb) in
        let (e, failed) =
          promote-err env.promote_ctx j.artifact_id hash (nzb_name env j nzb) s.db (same_keys ∙ on)
            (ap (has_artifact hash) same_artifacts ∙ free nzb)
            (same_jobs j.artifact_id ∙ has_one) in
        rw failed (promote_failed e, refl, (same_keys, same_artifacts, same_jobs, same_ids))

    with_nzb-Fails :
        (s : Store) (o : Option Bytes) → SameRows s.db db → Fails db (with_nzb env j s o)
    unfolding with_nzb
    with_nzb-Fails s none same_rows = (xml_failed, refl, same_rows)
    with_nzb-Fails s (some nzb) same_rows =
        Fails-if db (not env.makes_dir) _ _ (dir_failed, refl, same_rows)
          (Fails-if db (not env.writes) _ _ (write_failed, refl, same_rows)
            (not_promoted s nzb same_rows))

    after_posting-Fails :
        (n : ℕ) (r : Store × Posted) → SameRows r.0.db db → Fails db (after_posting env j n r)
    unfolding after_posting
    after_posting-Fails n (s, stopped e) same_rows = (e, refl, same_rows)
    after_posting-Fails n (s, posted segments) same_rows = with_nzb-Fails s _ same_rows

    run_data-Fails :
        (s : Store) (o : Option Bytes) → SameRows s.db db → Fails db (run_data env j s o)
    unfolding run_data
    run_data-Fails s none same_rows = (read_failed, refl, same_rows)
    run_data-Fails s (some bytes) same_rows =
        Fails-if db (is_empty (parts_of env j bytes)) _ _ (empty_file, refl, same_rows)
          (after_posting-Fails (length (parts_of env j bytes)) (post_all env j bytes s) (
            SameRows-trans (post_all env j bytes s).0.db s.db db
              (post_parts-SameRows (length (parts_of env j bytes)) (length bytes)
                (checksum_ieee bytes) 0 (parts_of env j bytes) s)
              same_rows))

  -- With the references on, no upload of an artifact that has a job becomes ready.
  pub upload_run-Fails :
      (s t : Store)
      → s.db.foreign_keys ≡ true
      → has_job_of j.artifact_id s.db.jobs ≡ true
      → ((nzb : Bytes) → has_artifact (hex_encode (env.sha256 nzb)) s.db.artifacts ≡ false)
      → SameRows t.db s.db
      → Fails s.db (upload_run env j t)
  unfolding upload_run
  upload_run-Fails s t on has_one free same_rows = run_data-Fails s.db on has_one free t _ same_rows

-- The job's row after its failure, unless the statement is refused or there is no row.
abbrev pub IsReported : Ctx → Bytes → Bytes → Db → Db → Type 0
IsReported last id text before after =
    (last.refuses ≡ true)
    ⊎ ((has_job id before.jobs ≡ false)
        ⊎ ((row : Job) × (find_job id after.jobs ≡ ok row)
            × (row.status ≡ job_failed)
            × (row.error_msg ≡ some text)))

report-IsReported :
    (last : Ctx) (id text : Bytes) (db : Db) (s : Store)
    → has_job id s.db.jobs ≡ has_job id db.jobs
    → IsReported last id text db (report last id text s).db
report-IsReported last id text db s ids = elim (Bool-cases last.refuses) [
  | inl e ↦ inl e
  | inr live ↦ elim (Bool-cases (has_job id db.jobs)) [
    | inr absent ↦ inr (inl absent)
    | inl there ↦ inr (inr (report-job last id text s live (ids ∙ there)))
  ]
]

-- With the references enforced, as `Open` sets them, an upload job whose artifact has a job ends in
-- an error, whatever the provider, the disk and the network do and whatever statements are refused, if
-- no artifact has the hash of a new NZB file as its id yet: the artifacts are as before, so that none
-- becomes `ready`; the last event is the failure; and unless the last statement is refused or the job
-- has no row, the row has the status `failed` and the text of the same error.
pub submit-never_ready :
    (first last : Ctx) (env : UploadEnv) (j : UploadJob) (text : RunError → Bytes) (s : Store)
    → s.db.foreign_keys ≡ true
    → has_job_of j.artifact_id s.db.jobs ≡ true
    → ((nzb : Bytes) → has_artifact (hex_encode (env.sha256 nzb)) s.db.artifacts ≡ false)
    → (e : RunError) × (before : List (Bytes × Event)) × ((submit first last j.job_id text
          (upload_run env j)
          s).db.artifacts
        ≡ s.db.artifacts)
      × ((submit first last j.job_id text (upload_run env j) s).events
          ≡ before ++ ((j.job_id, record no_event { status = job_failed; error = text e }) ∷ []))
      × IsReported last j.job_id
          (text e)
          s.db
          (submit first last j.job_id text (upload_run env j) s).db
unfolding submit
submit-never_ready first last env j text s on has_one free =
    let begun = begin_job first j.job_id s in
    let (e, failed, (same_keys, same_artifacts, same_jobs, same_ids)) =
      upload_run-Fails env j s begun on has_one free (begin_job-SameRows first j.job_id s) in
    let ended = (upload_run env j begun).0 in
    let (keys, artifacts, of_jobs, ids) = report-SameRows last j.job_id (text e) ended in
    rw failed (
      e,
      ended.events,
      artifacts ∙ same_artifacts,
      report-event last j.job_id (text e) ended,
      report-IsReported last j.job_id (text e) s.db ended (same_ids j.job_id),
    )
