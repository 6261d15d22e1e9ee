-- ===== src/Db/Integrity/Statements.antt =====
-- What each statement does to the keys.
use ol1n_super_app.Base.{
  ◌≡◌, refl, sym, subst, ◌∙◌, Bool, true, false, not, ◌&&◌, List, [], ◌∷◌, Bytes, arith, Bool-cases,
  inl, inr, if◌then◌else◌,
}
use ol1n_super_app.Db.Tables.{
  Artifact, Job, Db, DbError, constraint, Result, ok, err, Ctx, exec, checked, references_hold,
}
use ol1n_super_app.Db.Artifacts.{update_artifacts, retarget}
use ol1n_super_app.Db.Jobs.{update_jobs}
use ol1n_super_app.Db.Integrity.{
  artifact_ids, job_ids, token_ids, job_targets, IsDistinct, IsIntact, jobs_refer-all_in,
  tokens_refer-all_in,
}

-- A statement that went through was not refused.
pub exec-ok {ℓ} : {A : Type ℓ} (c : Ctx) (r : Result A) (x : A) → exec c r ≡ ok x → r ≡ ok x
exec-ok c r x h = elim (Bool-cases c.refuses) [
  | inl e ↦ absurd (cc (rw e at h))
  | inr e ↦ rw e at h
]

pub ok-injective {ℓ} : {A : Type ℓ} {x y : A} → ok x ≡ ok y → x ≡ y
ok-injective h = cc

pub unless_err {ℓ} :
    {A : Type ℓ} (b : Bool) (e : DbError) (r : Result A) (x : A)
    → (if b then err e else r) ≡ ok x
    → (b ≡ false) × (r ≡ ok x)
unless_err true e r x h = cc
unless_err false e r x h = (refl, h)

pub ids-update_artifacts :
    (test : Artifact → Bool) (change : Artifact → Artifact) (as' : List Artifact)
    → ((a : Artifact) → (change a).id ≡ a.id)
    → artifact_ids (update_artifacts test change as') ≡ artifact_ids as'
unfolding update_artifacts
ids-update_artifacts test change [] h = refl
ids-update_artifacts test change (a ∷ as') h =
    ground (arith, h a, ids-update_artifacts test change as' h)

pub ids-update_jobs :
    (id : Bytes) (change : Job → Job) (js : List Job)
    → ((j : Job) → (change j).id ≡ j.id)
    → job_ids (update_jobs id change js) ≡ job_ids js
unfolding update_jobs
ids-update_jobs id change [] h = refl
ids-update_jobs id change (j ∷ js) h = ground (arith, h j, ids-update_jobs id change js h)

pub targets-update_jobs :
    (id : Bytes) (change : Job → Job) (js : List Job)
    → ((j : Job) → (change j).artifact_id ≡ j.artifact_id)
    → job_targets (update_jobs id change js) ≡ job_targets js
unfolding update_jobs
targets-update_jobs id change [] h = refl
targets-update_jobs id change (j ∷ js) h = ground (arith, h j, targets-update_jobs id change js h)

pub ids-retarget :
    (new_id old_id : Bytes) (js : List Job) → job_ids (retarget new_id old_id js) ≡ job_ids js
unfolding retarget
ids-retarget new_id old_id [] = refl
ids-retarget new_id old_id (j ∷ js) = ground (arith, ids-retarget new_id old_id js)

-- A check that went through found every reference.
pub checked-IsIntact :
    (d d' : Db)
    → d.foreign_keys ≡ true
    → IsDistinct (artifact_ids d.artifacts)
    → IsDistinct (job_ids d.jobs)
    → IsDistinct (token_ids d.download_tokens)
    → checked d ≡ ok d'
    → IsIntact d'
checked-IsIntact d d' on a j t h =
    let (held, q) = unless_err (d.foreign_keys && not (references_hold d)) constraint (ok d) d' h in
    subst IsIntact (ok-injective q) (record {
      enforced = on;
      artifacts_distinct = a;
      jobs_distinct = j;
      tokens_distinct = t;
      jobs_held = sym (jobs_refer-all_in d.artifacts d.jobs) ∙ ground arith;
      tokens_held = sym (tokens_refer-all_in d.artifacts d.download_tokens) ∙ ground arith;
    })

-- Other artifacts with the same ids, and other jobs with the same ids and targets.
pub artifacts-IsIntact :
    (db : Db) (as' : List Artifact)
    → artifact_ids as' ≡ artifact_ids db.artifacts
    → IsIntact db
    → IsIntact (record db { artifacts = as' })
artifacts-IsIntact db as' e h = record {
  enforced = h.enforced;
  artifacts_distinct = rw e h.artifacts_distinct;
  jobs_distinct = h.jobs_distinct;
  tokens_distinct = h.tokens_distinct;
  jobs_held = rw e h.jobs_held;
  tokens_held = rw e h.tokens_held;
}

pub jobs-IsIntact :
    (db : Db) (js : List Job)
    → job_ids js ≡ job_ids db.jobs
    → job_targets js ≡ job_targets db.jobs
    → IsIntact db
    → IsIntact (record db { jobs = js })
jobs-IsIntact db js e f h = record {
  enforced = h.enforced;
  artifacts_distinct = h.artifacts_distinct;
  jobs_distinct = rw e h.jobs_distinct;
  tokens_distinct = h.tokens_distinct;
  jobs_held = rw f h.jobs_held;
  tokens_held = h.tokens_held;
}
