-- ===== src/Db/Jobs.antt =====
-- queries.go: the statements on jobs.
use ol1n_super_app.Base.{none, some, List, [], ◌∷◌, ◌++◌, if◌then◌else◌, Bytes, same}
use ol1n_super_app.Base.Ints.{ℤ, pos}
use ol1n_super_app.Go.Strings.{is_nil}
use ol1n_super_app.Db.Tables.{
  job_queued, job_done, job_failed, Job, Db, not_found, constraint, Result, ok, err, Ctx, exec,
  has_job, checked,
}

unfoldable pub insert_job : Ctx → Bytes → Bytes → Bytes → Bytes → Db → Result Db
insert_job c id artifact_id kind tmp_path db = exec c (
    if has_job id db.jobs
    then err constraint
    else checked (record db {
      jobs =
          db.jobs
          ++ (record {
            id = id;
            artifact_id = artifact_id;
            kind = kind;
            status = job_queued;
            progress = pos 0;
            error_msg = none;
            result_url = none;
            tmp_path = if is_nil tmp_path then none else some tmp_path;
            created_at = c.now;
            updated_at = c.now;
          }
              ∷ []);
    }))

unfoldable pub find_job : Bytes → List Job → Result Job
find_job id [] = err not_found
find_job id (j ∷ js) = if same j.id id then ok j else find_job id js

unfoldable pub get_job : Ctx → Bytes → Db → Result Job
unfolding find_job
get_job c id db = exec c (find_job id db.jobs)

-- `UPDATE jobs SET ... WHERE id = ?`
unfoldable pub update_jobs : Bytes → (Job → Job) → List Job → List Job
update_jobs id change [] = []
update_jobs id change (j ∷ js) = (if same j.id id then change j else j) ∷ update_jobs id change js

unfoldable pub update_job_status : Ctx → Bytes → Bytes → ℤ → Db → Result Db
unfolding update_jobs
update_job_status c id status progress db = exec c (
    ok (record db {
      jobs =
          update_jobs id
            (λ j. record j { status = status; progress = progress; updated_at = c.now }) db.jobs;
    }))

unfoldable pub update_job_artifact_id : Ctx → Bytes → Bytes → Db → Result Db
unfolding update_jobs
update_job_artifact_id c id artifact_id db = exec c (
    checked (record db {
      jobs =
          update_jobs id (λ j. record j { artifact_id = artifact_id; updated_at = c.now }) db.jobs;
    }))

unfoldable pub update_job_progress : Ctx → Bytes → ℤ → Db → Result Db
unfolding update_jobs
update_job_progress c id progress db = exec c (
    ok (record db {
      jobs = update_jobs id (λ j. record j { progress = progress; updated_at = c.now }) db.jobs;
    }))

unfoldable pub mark_job_done : Ctx → Bytes → Bytes → Db → Result Db
unfolding update_jobs
mark_job_done c id result_url db = exec c (
    ok (record db {
      jobs =
          update_jobs id
            (λ j. record j {
              status = job_done;
              progress = pos 100;
              result_url = some result_url;
              updated_at = c.now;
            })
            db.jobs;
    }))

unfoldable pub mark_job_failed : Ctx → Bytes → Bytes → Db → Result Db
unfolding update_jobs
mark_job_failed c id msg db = exec c (
    ok (record db {
      jobs =
          update_jobs id
            (λ j. record j { status = job_failed; error_msg = some msg; updated_at = c.now })
            db.jobs;
    }))
