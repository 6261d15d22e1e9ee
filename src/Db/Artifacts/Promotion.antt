-- ===== src/Db/Artifacts/Promotion.antt =====
-- `PromoteArtifactToReady` under the references that the schema declares.
use ol1n_super_app.Base.{◌≡◌, Bool, true, false, ◌||◌, List, [], ◌∷◌, arith, Bytes, same}
use ol1n_super_app.Db.Tables.{Artifact, Job, Db, constraint, err, Ctx, has_artifact, jobs_refer}
use ol1n_super_app.Db.Artifacts.{retarget, promote_artifact_to_ready}

-- Some job belongs to the artifact.
unfoldable pub has_job_of : Bytes → List Job → Bool
has_job_of id [] = false
has_job_of id (j ∷ js) = same j.artifact_id id || has_job_of id js

jobs_refer-retarget :
    (as' : List Artifact) (new_id old_id : Bytes) (js : List Job)
    → has_artifact new_id as' ≡ false
    → has_job_of old_id js ≡ true
    → jobs_refer as' (retarget new_id old_id js) ≡ false
unfolding jobs_refer retarget has_job_of
jobs_refer-retarget as' new_id old_id [] free h = cc
jobs_refer-retarget as' new_id old_id (j ∷ js) free h =
    ground (arith, jobs_refer-retarget as' new_id old_id js free)

-- With the references enforced, as `Open` sets them, an artifact that has a job cannot be promoted
-- to an id that no artifact has yet: the first UPDATE breaks the reference of the job, the
-- statement fails and the transaction leaves everything as it was.
pub promote-fails :
    (c : Ctx) (old_id new_id nzb_path : Bytes) (db : Db)
    → c.refuses ≡ false
    → db.foreign_keys ≡ true
    → has_artifact new_id db.artifacts ≡ false
    → has_job_of old_id db.jobs ≡ true
    → promote_artifact_to_ready c old_id new_id nzb_path db ≡ err constraint
unfolding promote_artifact_to_ready
promote-fails c old_id new_id nzb_path db live on free h =
    ground (arith, jobs_refer-retarget db.artifacts new_id old_id db.jobs free h)
