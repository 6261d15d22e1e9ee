-- ===== src/Db/Integrity/Rows.antt =====
-- Statements that add, remove or rename rows.
use ol1n_super_app.Base.{
  map-append, some, ap₂, ℕ, ◌≡◌, refl, sym, subst, ◌∙◌, false, not, ◌&&◌, List, Bytes, same,
  Bool-cases, inl, inr,
}
use ol1n_super_app.Db.Tables.{
  status_ready, Artifact, Job, DownloadToken, Db, constraint, Result, ok, err, ◌>>=◌, Ctx, checked,
  has_artifact, has_job, has_token,
}
use ol1n_super_app.Db.Artifacts.{
  retarget, rename_artifact, promote_artifact_to_ready, insert_artifact_pending,
}
use ol1n_super_app.Db.Jobs.{update_jobs, insert_job, update_job_artifact_id}
use ol1n_super_app.Db.Tokens.{insert_download_token, delete_expired_tokens, is_expired}
use ol1n_super_app.Db.Integrity.{
  artifact_ids, job_ids, token_ids, job_targets, token_targets, is_in, IsIntact, has_artifact-is_in,
  has_job-is_in, has_token-is_in, snoc-IsDistinct, all_in-snoc,
}
use ol1n_super_app.Db.Integrity.Statements.{
  exec-ok, ok-injective, unless_err, checked-IsIntact, ids-retarget, ids-update_jobs,
}
use ol1n_super_app.Db.Integrity.Keys.{
  may_rename-IsDistinct, delete_tokens-IsDistinct, all_in-delete_tokens, ids-renamed,
}

module _ (c : Ctx) (db db' : Db) (h : IsIntact db) where
  pub insert_artifact_pending-IsIntact :
      (id filename content_type : Bytes) (size : ℕ) (payment_id : Bytes)
      → insert_artifact_pending c id filename content_type size payment_id db ≡ ok db'
      → IsIntact db'
  unfolding insert_artifact_pending
  insert_artifact_pending-IsIntact id filename content_type size payment_id went =
      let (absent, q) =
        unless_err (has_artifact id db.artifacts) constraint _ db' (exec-ok c _ db' went) in
      let new : is_in id (artifact_ids db.artifacts) ≡ false =
        sym (has_artifact-is_in id db.artifacts) ∙ absent in
      let ids = map-append (λ (a : Artifact). a.id) db.artifacts in
      subst IsIntact (ok-injective q) (record {
        enforced = h.enforced;
        artifacts_distinct =
            rw (ids _) (snoc-IsDistinct id (artifact_ids db.artifacts) new h.artifacts_distinct);
        jobs_distinct = h.jobs_distinct;
        tokens_distinct = h.tokens_distinct;
        jobs_held =
            rw (ids _)
              (all_in-snoc id (job_targets db.jobs) (artifact_ids db.artifacts) h.jobs_held);
        tokens_held = rw (ids _) (
            all_in-snoc id (token_targets db.download_tokens) (artifact_ids db.artifacts)
              h.tokens_held);
      })

  pub insert_job-IsIntact :
      (id artifact_id kind tmp_path : Bytes)
      → insert_job c id artifact_id kind tmp_path db ≡ ok db'
      → IsIntact db'
  unfolding insert_job
  insert_job-IsIntact id artifact_id kind tmp_path went =
      let (absent, q) = unless_err (has_job id db.jobs) constraint _ db' (exec-ok c _ db' went) in
      checked-IsIntact _ db' h.enforced h.artifacts_distinct
        (rw (map-append (λ (j : Job). j.id) db.jobs _) (
          snoc-IsDistinct id (job_ids db.jobs) (sym (has_job-is_in id db.jobs) ∙ absent)
            h.jobs_distinct))
        h.tokens_distinct q

  pub insert_download_token-IsIntact :
      (token artifact_id : Bytes) (ttl : ℕ)
      → insert_download_token c token artifact_id ttl db ≡ ok db'
      → IsIntact db'
  unfolding insert_download_token
  insert_download_token-IsIntact token artifact_id ttl went =
      let (absent, q) =
        unless_err (has_token token db.download_tokens) constraint _ db' (exec-ok c _ db' went) in
      checked-IsIntact _ db' h.enforced h.artifacts_distinct h.jobs_distinct
        (rw (map-append (λ (t : DownloadToken). t.token) db.download_tokens _) (
          snoc-IsDistinct token (token_ids db.download_tokens)
            (sym (has_token-is_in token db.download_tokens) ∙ absent) h.tokens_distinct))
        q

  pub update_job_artifact_id-IsIntact :
      (id artifact_id : Bytes) → update_job_artifact_id c id artifact_id db ≡ ok db' → IsIntact db'
  unfolding update_job_artifact_id
  update_job_artifact_id-IsIntact id artifact_id went =
      let change : Job → Job = λ j. record j { artifact_id = artifact_id; updated_at = c.now } in
      checked-IsIntact (record db { jobs = update_jobs id change db.jobs }) db' h.enforced
        h.artifacts_distinct (rw (ids-update_jobs id change db.jobs (λ j. refl)) h.jobs_distinct)
        h.tokens_distinct (exec-ok c _ db' went)

  pub rename_artifact-IsIntact :
      (new_id nzb_path old_id : Bytes)
      → rename_artifact c new_id nzb_path old_id db ≡ ok db'
      → IsIntact db'
  unfolding rename_artifact
  rename_artifact-IsIntact new_id nzb_path old_id went =
      let change : Artifact → Artifact = λ a. record a {
        id = new_id;
        nzb_path = some nzb_path;
        status = status_ready;
        updated_at = c.now;
      } in
      let (may, q) =
        unless_err
          (has_artifact old_id db.artifacts
            && not (same new_id old_id)
            && has_artifact new_id db.artifacts)
          constraint _ db' went in
      let may' : is_in old_id (artifact_ids db.artifacts)
            && not (same new_id old_id)
            && is_in new_id (artifact_ids db.artifacts)
          ≡ false =
        ap₂ (λ a b. a && not (same new_id old_id) && b)
          (sym (has_artifact-is_in old_id db.artifacts))
          (sym (has_artifact-is_in new_id db.artifacts))
        ∙ may in
      checked-IsIntact _ db' h.enforced
        (rw (ids-renamed old_id new_id change db.artifacts (λ a. refl)) (
          may_rename-IsDistinct old_id new_id (artifact_ids db.artifacts) may'
            h.artifacts_distinct))
        h.jobs_distinct h.tokens_distinct q

-- Both updates of the transaction are checked.
pub promote_artifact_to_ready-IsIntact :
    (c : Ctx) (db db' : Db) (old_id new_id nzb_path : Bytes)
    → IsIntact db
    → promote_artifact_to_ready c old_id new_id nzb_path db ≡ ok db'
    → IsIntact db'
unfolding promote_artifact_to_ready
promote_artifact_to_ready-IsIntact c db db' old_id new_id nzb_path h went =
    ended (checked (record db { jobs = retarget new_id old_id db.jobs })) refl
      (exec-ok c _ db' went)
  where
    ended :
        (r : Result Db)
        → checked (record db { jobs = retarget new_id old_id db.jobs }) ≡ r
        → (r >>= (λ moved. rename_artifact c new_id nzb_path old_id moved)) ≡ ok db'
        → IsIntact db'
    ended (err e) q g = cc
    ended (ok moved) q g =
        rename_artifact-IsIntact c moved db'
          (checked-IsIntact (record db { jobs = retarget new_id old_id db.jobs }) moved h.enforced
            h.artifacts_distinct (rw (ids-retarget new_id old_id db.jobs) h.jobs_distinct)
            h.tokens_distinct q)
          new_id nzb_path old_id g

pub delete_expired_tokens-IsIntact :
    (read write : Ctx) (now : ℕ) (db db' : Db) (ts : List DownloadToken)
    → IsIntact db
    → delete_expired_tokens read write now db ≡ ok (db', ts)
    → IsIntact db'
unfolding delete_expired_tokens
delete_expired_tokens-IsIntact read write now db db' ts h went = elim (Bool-cases read.refuses) [
  | inl e ↦ absurd (cc (rw e at went))
  | inr e ↦ elim (Bool-cases write.refuses) [
    | inl e' ↦ absurd (cc (rw (e, e') at went))
    | inr e' ↦
        subst (λ r. IsIntact r.0) (ok-injective (rw (e, e') at went))
          (record {
            enforced = h.enforced;
            artifacts_distinct = h.artifacts_distinct;
            jobs_distinct = h.jobs_distinct;
            tokens_distinct =
                delete_tokens-IsDistinct (is_expired now) db.download_tokens h.tokens_distinct;
            jobs_held = h.jobs_held;
            tokens_held =
                all_in-delete_tokens (artifact_ids db.artifacts) (is_expired now) db.download_tokens
                  h.tokens_held;
          })
  ]
]
