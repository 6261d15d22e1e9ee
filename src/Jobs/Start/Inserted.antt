-- ===== src/Jobs/Start/Inserted.antt =====
-- Tables with one more row, and what the queries find in them.
use ol1n_super_app.Base.{
  Option, ◌∙◌, ℕ, ◌≡◌, refl, ap, sym, Bool, true, false, ◌&&◌, List, [], ◌∷◌, ◌++◌, Bytes, same,
  arith, Bool-cases, inl, inr, if◌then◌else◌,
}
use ol1n_super_app.Db.Tables.{
  Artifact, Job, Db, constraint, Result, ok, Ctx, exec, has_artifact, has_job,
  status_pending_payment, job_queued, job_type_upload,
}
use ol1n_super_app.Db.Artifacts.{
  insert_artifact_pending, find_artifact, update_artifacts, any_artifact,
}
use ol1n_super_app.Db.Jobs.{insert_job}
use ol1n_super_app.Jobs.Start.{newer, newest_job, is_upload_of}
use ol1n_super_app.Base.{none, some, same_iff}
use ol1n_super_app.Base.Ints.{pos}
use ol1n_super_app.Go.Strings.{is_nil}
use ol1n_super_app.Db.Integrity.{artifact_ids, job_targets, is_in, all_in, has_artifact-is_in}
use ol1n_super_app.Db.Integrity.Statements.{exec-ok, ok-injective, unless_err}

pub exec-runs : {A : Type 0} (c : Ctx) (x : Result A) → c.refuses ≡ false → exec c x ≡ x
exec-runs c x e = rw e refl

-- The row that an insert appends.
abbrev pub new_artifact : Ctx → Bytes → Bytes → Bytes → ℕ → Bytes → Artifact
new_artifact c id filename content_type size payment_id = record {
  id = id;
  filename = filename;
  content_type = content_type;
  size_bytes = size;
  nzb_path = none;
  status = status_pending_payment;
  payment_id = some payment_id;
  payment_status = none;
  tx_hash = none;
  created_at = c.now;
  updated_at = c.now;
}

abbrev pub new_job : Ctx → Bytes → Bytes → Bytes → Bytes → Job
new_job c id artifact_id kind tmp_path = record {
  id = id;
  artifact_id = artifact_id;
  kind = kind;
  status = job_queued;
  progress = pos 0;
  error_msg = none;
  result_url = none;
  tmp_path = if is_nil tmp_path then none else some tmp_path;
  created_at = c.now;
  updated_at = c.now;
}

pub insert_artifact_pending-inserted :
    (c : Ctx) (id filename content_type : Bytes) (size : ℕ) (payment_id : Bytes) (db db' : Db)
    → insert_artifact_pending c id filename content_type size payment_id db ≡ ok db'
    → (is_in id (artifact_ids db.artifacts) ≡ false)
      × (record db {
        artifacts = db.artifacts ++ (new_artifact c id filename content_type size payment_id ∷ []);
      }
          ≡ db')
unfolding insert_artifact_pending
insert_artifact_pending-inserted c id filename content_type size payment_id db db' went =
    let (absent, q) =
      unless_err (has_artifact id db.artifacts) constraint _ db' (exec-ok c _ db' went) in
    (sym (has_artifact-is_in id db.artifacts) ∙ absent, ok-injective q)

pub insert_job-inserted :
    (c : Ctx) (id artifact_id kind tmp_path : Bytes) (db db' : Db)
    → insert_job c id artifact_id kind tmp_path db ≡ ok db'
    → record db { jobs = db.jobs ++ (new_job c id artifact_id kind tmp_path ∷ []) } ≡ db'
unfolding insert_job
insert_job-inserted c id artifact_id kind tmp_path db db' went =
    let (absent, q) = unless_err (has_job id db.jobs) constraint _ db' (exec-ok c _ db' went) in
    ok-injective (unless_err _ constraint _ db' q).1

pub find_artifact-snoc :
    (test : Artifact → Bool) (as' : List Artifact) (a : Artifact)
    → any_artifact test as' ≡ false
    → test a ≡ true
    → find_artifact test (as' ++ (a ∷ [])) ≡ ok a
unfolding find_artifact any_artifact
find_artifact-snoc test [] a none' h = rw h refl
find_artifact-snoc test (b ∷ as') a none' h = ground (arith, find_artifact-snoc test as' a)

pub update_artifacts-snoc :
    (test : Artifact → Bool) (change : Artifact → Artifact) (as' : List Artifact) (a : Artifact)
    → any_artifact test as' ≡ false
    → test a ≡ true
    → update_artifacts test change (as' ++ (a ∷ [])) ≡ as' ++ (change a ∷ [])
unfolding update_artifacts any_artifact
update_artifacts-snoc test change [] a none' h = rw h refl
update_artifacts-snoc test change (b ∷ as') a none' h =
    ground (arith, update_artifacts-snoc test change as' a)

pub any_artifact-snoc :
    (test : Artifact → Bool) (as' : List Artifact) (a : Artifact)
    → test a ≡ true
    → any_artifact test (as' ++ (a ∷ [])) ≡ true
unfolding any_artifact
any_artifact-snoc test [] a h = rw h refl
any_artifact-snoc test (b ∷ as') a h = ground (arith, any_artifact-snoc test as' a)

pub any_artifact-and :
    (p q : Artifact → Bool) (as' : List Artifact)
    → any_artifact p as' ≡ false
    → any_artifact (λ a. p a && q a) as' ≡ false
unfolding any_artifact
any_artifact-and p q [] h = refl
any_artifact-and p q (a ∷ as') h = ground (arith, any_artifact-and p q as')

pub newest_job-skips :
    (test : Job → Bool) (i : Job) (js : List Job) (best : Option Job)
    → test i ≡ false
    → newest_job test (i ∷ js) best ≡ newest_job test js best
unfolding newest_job
newest_job-skips test i js best h =
    ap (λ b. newest_job test js (if b then newer i best else best)) h

-- No job of the table is of an artifact that is not there.
pub newest_job-new :
    (id : Bytes) (ids : List Bytes) (js : List Job) (j : Job)
    → is_in id ids ≡ false
    → all_in (job_targets js) ids ≡ true
    → is_upload_of id j ≡ true
    → newest_job (is_upload_of id) (js ++ (j ∷ [])) none ≡ some j
unfolding newest_job all_in
newest_job-new id ids [] j absent held h = rw h refl
newest_job-new id ids (i ∷ js) j absent held h = elim (Bool-cases (same i.artifact_id id)) [
  | inl e ↦
      let there : is_in i.artifact_id ids ≡ true = ground arith in
      let moved : is_in id ids ≡ true = rw ((same_iff i.artifact_id id).0 e) at there in
      absurd (cc (moved, absent))
  | inr e ↦
      newest_job-skips (is_upload_of id) i (js ++ (j ∷ [])) none
        (ap (λ b. b && same i.kind job_type_upload) e)
      ∙ newest_job-new id ids js j absent (ground arith) h
]
