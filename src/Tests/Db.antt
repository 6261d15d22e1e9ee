-- ===== src/Tests/Db.antt =====
-- ol1n-vault/internal/db: the theorems at concrete inputs.
use ol1n_super_app.Base.{same, ◌≡◌, refl, true, false, none, some, [], ◌∷◌, codes}
use ol1n_super_app.Base.Ints.{pos}
use ol1n_super_app.Db.Tables.{
  has_artifact, Artifact, Job, Db, fresh_db, Ctx, status_uploading, job_running, job_type_upload,
}
use ol1n_super_app.Db.Artifacts.Promotion.{has_job_of}

abbrev pub live : Ctx
live = record { now = 1700000000; refuses = false }

abbrev pub paid_artifact : Artifact
paid_artifact = record {
  id = codes "a1";
  filename = codes "cat.png";
  content_type = codes "image/png";
  size_bytes = 10;
  nzb_path = none;
  status = status_uploading;
  payment_id = some (codes "p1");
  payment_status = some (codes "finished");
  tx_hash = none;
  created_at = 1;
  updated_at = 2;
}

abbrev its_job : Job
its_job = record {
  id = codes "j1";
  artifact_id = codes "a1";
  kind = job_type_upload;
  status = job_running;
  progress = pos 95;
  error_msg = none;
  result_url = none;
  tmp_path = some (codes "/tmp/j1");
  created_at = 1;
  updated_at = 2;
}

abbrev pub paid_db : Db
paid_db = record fresh_db { artifacts = paid_artifact ∷ []; jobs = its_job ∷ [] }

not_yet_there : has_artifact (codes "h1") paid_db.artifacts ≡ false
unfolding has_artifact same
not_yet_there = refl

pub job_is_there : has_job_of (codes "a1") paid_db.jobs ≡ true
unfolding has_job_of same
job_is_there = refl
