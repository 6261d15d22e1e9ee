-- ===== src/Db/Integrity/Reachable.antt =====
-- The tables after any statements of queries.go, from the database that `Open` has made.
use ol1n_super_app.Base.{subst, ℕ, ◌≡◌, refl, List, Bytes, Bool}
use ol1n_super_app.Base.Ints.{ℤ}
use ol1n_super_app.Db.Tables.{DownloadToken, Db, fresh_db, Ctx, ok}
use ol1n_super_app.Db.Artifacts.{
  insert_artifact_pending, mark_payment_confirmed, update_artifact_payment_status,
  promote_artifact_to_ready, mark_artifact_failed, mark_artifact_notarized,
}
use ol1n_super_app.Db.Jobs.{
  insert_job, update_job_status, update_job_artifact_id, update_job_progress, mark_job_done,
  mark_job_failed,
}
use ol1n_super_app.Db.Tokens.{insert_download_token, delete_expired_tokens}
use ol1n_super_app.Db.Integrity.{IsIntact, all_in}
use ol1n_super_app.Db.Integrity.Statements.{
  exec-ok, ok-injective, ids-update_artifacts, ids-update_jobs, targets-update_jobs,
  artifacts-IsIntact, jobs-IsIntact,
}
use ol1n_super_app.Db.Integrity.Rows.{
  insert_artifact_pending-IsIntact, insert_job-IsIntact, insert_download_token-IsIntact,
  update_job_artifact_id-IsIntact, promote_artifact_to_ready-IsIntact,
  delete_expired_tokens-IsIntact,
}

-- A statement that writes and goes through; one that fails changes nothing.
pub data Statement (db db' : Db) : Type 0 where
  artifact_inserted :
      (c : Ctx) (id filename content_type : Bytes) (size : ℕ) (payment_id : Bytes)
      → insert_artifact_pending c id filename content_type size payment_id db ≡ ok db'
      → Statement db db'
  payment_confirmed :
      (c : Ctx) (payment_id payment_status : Bytes) (advanced : Bool)
      → mark_payment_confirmed c payment_id payment_status db ≡ ok (db', advanced)
      → Statement db db'
  payment_status_updated :
      (c : Ctx) (payment_id payment_status : Bytes)
      → update_artifact_payment_status c payment_id payment_status db ≡ ok db'
      → Statement db db'
  artifact_promoted :
      (c : Ctx) (old_id new_id nzb_path : Bytes)
      → promote_artifact_to_ready c old_id new_id nzb_path db ≡ ok db'
      → Statement db db'
  artifact_failed :
      (c : Ctx) (id : Bytes) → mark_artifact_failed c id db ≡ ok db' → Statement db db'
  artifact_notarized :
      (c : Ctx) (id tx_hash : Bytes)
      → mark_artifact_notarized c id tx_hash db ≡ ok db'
      → Statement db db'
  job_inserted :
      (c : Ctx) (id artifact_id kind tmp_path : Bytes)
      → insert_job c id artifact_id kind tmp_path db ≡ ok db'
      → Statement db db'
  job_status_updated :
      (c : Ctx) (id status : Bytes) (progress : ℤ)
      → update_job_status c id status progress db ≡ ok db'
      → Statement db db'
  job_artifact_updated :
      (c : Ctx) (id artifact_id : Bytes)
      → update_job_artifact_id c id artifact_id db ≡ ok db'
      → Statement db db'
  job_progressed :
      (c : Ctx) (id : Bytes) (progress : ℤ)
      → update_job_progress c id progress db ≡ ok db'
      → Statement db db'
  job_ended : (c : Ctx) (id url : Bytes) → mark_job_done c id url db ≡ ok db' → Statement db db'
  job_gave_up : (c : Ctx) (id msg : Bytes) → mark_job_failed c id msg db ≡ ok db' → Statement db db'
  token_inserted :
      (c : Ctx) (token artifact_id : Bytes) (ttl : ℕ)
      → insert_download_token c token artifact_id ttl db ≡ ok db'
      → Statement db db'
  tokens_deleted :
      (read write : Ctx) (now : ℕ) (expired : List DownloadToken)
      → delete_expired_tokens read write now db ≡ ok (db', expired)
      → Statement db db'

pub data Reach : Db → Type 0 where
  opened : Reach fresh_db
  later : {db db' : Db} → Reach db → Statement db db' → Reach db'

Statement-IsIntact : (db db' : Db) → Statement db db' → IsIntact db → IsIntact db'
unfolding mark_payment_confirmed update_artifact_payment_status mark_artifact_failed
    mark_artifact_notarized update_job_status update_job_progress mark_job_done mark_job_failed
Statement-IsIntact db db' (artifact_inserted c id filename content_type size payment_id e) h =
    insert_artifact_pending-IsIntact c db db' h id filename content_type size payment_id e
Statement-IsIntact db db' (payment_confirmed c payment_id payment_status advanced e) h =
    subst (λ r. IsIntact r.0) (ok-injective (exec-ok c _ (db', advanced) e))
      (artifacts-IsIntact db _ (ids-update_artifacts _ _ db.artifacts (λ a. refl)) h)
Statement-IsIntact db db' (payment_status_updated c payment_id payment_status e) h =
    subst IsIntact (ok-injective (exec-ok c _ db' e))
      (artifacts-IsIntact db _ (ids-update_artifacts _ _ db.artifacts (λ a. refl)) h)
Statement-IsIntact db db' (artifact_promoted c old_id new_id nzb_path e) h =
    promote_artifact_to_ready-IsIntact c db db' old_id new_id nzb_path h e
Statement-IsIntact db db' (artifact_failed c id e) h =
    subst IsIntact (ok-injective (exec-ok c _ db' e))
      (artifacts-IsIntact db _ (ids-update_artifacts _ _ db.artifacts (λ a. refl)) h)
Statement-IsIntact db db' (artifact_notarized c id tx_hash e) h =
    subst IsIntact (ok-injective (exec-ok c _ db' e))
      (artifacts-IsIntact db _ (ids-update_artifacts _ _ db.artifacts (λ a. refl)) h)
Statement-IsIntact db db' (job_inserted c id artifact_id kind tmp_path e) h =
    insert_job-IsIntact c db db' h id artifact_id kind tmp_path e
Statement-IsIntact db db' (job_status_updated c id status progress e) h =
    subst IsIntact (ok-injective (exec-ok c _ db' e)) (
      jobs-IsIntact db _ (ids-update_jobs id _ db.jobs (λ j. refl))
        (targets-update_jobs id _ db.jobs (λ j. refl)) h)
Statement-IsIntact db db' (job_artifact_updated c id artifact_id e) h =
    update_job_artifact_id-IsIntact c db db' h id artifact_id e
Statement-IsIntact db db' (job_progressed c id progress e) h =
    subst IsIntact (ok-injective (exec-ok c _ db' e)) (
      jobs-IsIntact db _ (ids-update_jobs id _ db.jobs (λ j. refl))
        (targets-update_jobs id _ db.jobs (λ j. refl)) h)
Statement-IsIntact db db' (job_ended c id url e) h =
    subst IsIntact (ok-injective (exec-ok c _ db' e)) (
      jobs-IsIntact db _ (ids-update_jobs id _ db.jobs (λ j. refl))
        (targets-update_jobs id _ db.jobs (λ j. refl)) h)
Statement-IsIntact db db' (job_gave_up c id msg e) h =
    subst IsIntact (ok-injective (exec-ok c _ db' e)) (
      jobs-IsIntact db _ (ids-update_jobs id _ db.jobs (λ j. refl))
        (targets-update_jobs id _ db.jobs (λ j. refl)) h)
Statement-IsIntact db db' (token_inserted c token artifact_id ttl e) h =
    insert_download_token-IsIntact c db db' h token artifact_id ttl e
Statement-IsIntact db db' (tokens_deleted read write now expired e) h =
    delete_expired_tokens-IsIntact read write now db db' expired h e

-- Whatever statements run on a new database, in any order and with any arguments: the ids of the
-- artifacts, the ids of the jobs and the tokens are each distinct, and every job and every token refers
-- to an artifact that is there.
pub Reach-IsIntact : {db : Db} → Reach db → IsIntact db
unfolding all_in
Reach-IsIntact opened = record {
  enforced = refl;
  artifacts_distinct = tt;
  jobs_distinct = tt;
  tokens_distinct = tt;
  jobs_held = refl;
  tokens_held = refl;
}
Reach-IsIntact (later {db} {db'} r s) = Statement-IsIntact db db' s (Reach-IsIntact r)
