-- ===== src/Db/Artifacts.antt =====
-- queries.go: the statements on artifacts.
pub mod Promotion
pub mod Payment
use ol1n_super_app.Base.{
  ℕ, zero, suc, ◌≡◌, refl, Bool, true, false, not, ◌&&◌, ◌||◌, Option, none, some, List, [], ◌∷◌,
  ◌++◌, ltb, leb, if◌then◌else◌, Bytes, codes, same, take, map,
}
use ol1n_super_app.Base.Ints.{ℤ, pos, negsuc}
use ol1n_super_app.Db.Tables.{
  status_pending_payment, status_uploading, status_ready, status_notarized, status_failed, Artifact,
  Job, Db, DbError, not_found, constraint, Result, ok, err, ◌>>=◌, Ctx, exec, is_text, has_artifact,
  checked,
}

unfoldable pub insert_artifact_pending : Ctx → Bytes → Bytes → Bytes → ℕ → Bytes → Db → Result Db
insert_artifact_pending c id filename content_type size payment_id db = exec c (
    if has_artifact id db.artifacts
    then err constraint
    else ok (record db {
      artifacts =
          db.artifacts
          ++ (record {
            id = id;
            filename = filename;
            content_type = content_type;
            size_bytes = size;
            nzb_path = none;
            status = status_pending_payment;
            payment_id = some payment_id;
            payment_status = none;
            tx_hash = none;
            created_at = c.now;
            updated_at = c.now;
          }
              ∷ []);
    }))

-- The first row that passes the test.
unfoldable pub find_artifact : (Artifact → Bool) → List Artifact → Result Artifact
find_artifact test [] = err not_found
find_artifact test (a ∷ as') = if test a then ok a else find_artifact test as'

unfoldable pub get_artifact : Ctx → Bytes → Db → Result Artifact
unfolding find_artifact
get_artifact c id db = exec c (find_artifact (λ a. same a.id id) db.artifacts)

unfoldable pub get_artifact_by_payment_id : Ctx → Bytes → Db → Result Artifact
unfolding find_artifact
get_artifact_by_payment_id c payment_id db =
    exec c (find_artifact (λ a. is_text a.payment_id payment_id) db.artifacts)

-- `WHERE status IN ('ready','notarized') ORDER BY created_at DESC LIMIT ?`; no row limit below 0.
unfoldable pub listed : List Artifact → List Artifact
listed [] = []
listed (a ∷ as') =
    let rest = listed as' in
    if same a.status status_ready || same a.status status_notarized then a ∷ rest else rest

unfoldable pub by_newest : Artifact → List Artifact → List Artifact
by_newest a [] = a ∷ []
by_newest a (b ∷ bs) =
    let later = b ∷ by_newest a bs in if ltb a.created_at b.created_at then later else a ∷ b ∷ bs

unfoldable pub sort_newest : List Artifact → List Artifact
unfolding by_newest
sort_newest [] = []
sort_newest (a ∷ as') = by_newest a (sort_newest as')

abbrev pub limit_rows : ℤ → List Artifact → List Artifact
limit_rows (pos n) rows = take n rows
limit_rows (negsuc n) rows = rows

unfoldable pub list_ready_artifacts : Ctx → ℤ → Db → Result (List Artifact)
unfolding listed sort_newest
list_ready_artifacts c limit db = exec c (ok (limit_rows limit (sort_newest (listed db.artifacts))))

-- `WHERE payment_id = ? AND status = 'pending_payment'`
abbrev pub awaits_payment : Bytes → Artifact → Bool
awaits_payment payment_id a =
    is_text a.payment_id payment_id && same a.status status_pending_payment

unfoldable pub any_artifact : (Artifact → Bool) → List Artifact → Bool
any_artifact test [] = false
any_artifact test (a ∷ as') = test a || any_artifact test as'

-- An UPDATE: the rows that pass the test are changed.
unfoldable pub update_artifacts :
    (Artifact → Bool) → (Artifact → Artifact) → List Artifact → List Artifact
update_artifacts test change [] = []
update_artifacts test change (a ∷ as') =
    (if test a then change a else a) ∷ update_artifacts test change as'

unfoldable pub mark_payment_confirmed : Ctx → Bytes → Bytes → Db → Result (Db × Bool)
mark_payment_confirmed c payment_id payment_status db = exec c (
    ok (
      record db {
        artifacts =
            update_artifacts (awaits_payment payment_id)
              (λ a. record a {
                status = status_uploading;
                payment_status = some payment_status;
                updated_at = c.now;
              })
              db.artifacts;
      },
      any_artifact (awaits_payment payment_id) db.artifacts,
    ))

unfoldable pub update_artifact_payment_status : Ctx → Bytes → Bytes → Db → Result Db
update_artifact_payment_status c payment_id payment_status db = exec c (
    ok (record db {
      artifacts =
          update_artifacts (λ a. is_text a.payment_id payment_id)
            (λ a. record a { payment_status = some payment_status; updated_at = c.now })
            db.artifacts;
    }))

-- `UPDATE jobs SET artifact_id = ? WHERE artifact_id = ?`
unfoldable pub retarget : Bytes → Bytes → List Job → List Job
retarget new_id old_id [] = []
retarget new_id old_id (j ∷ js) =
    (if same j.artifact_id old_id then record j { artifact_id = new_id } else j)
    ∷ retarget new_id old_id js

-- `UPDATE artifacts SET id = ?, nzb_path = ?, status = 'ready' ...`: another row must not have the id.
unfoldable pub rename_artifact : Ctx → Bytes → Bytes → Bytes → Db → Result Db
unfolding update_artifacts
rename_artifact c new_id nzb_path old_id db =
    if has_artifact old_id db.artifacts
      && not (same new_id old_id)
      && has_artifact new_id db.artifacts
    then err constraint
    else checked (record db {
      artifacts =
          update_artifacts (λ a. same a.id old_id)
            (λ a. record a {
              id = new_id;
              nzb_path = some nzb_path;
              status = status_ready;
              updated_at = c.now;
            })
            db.artifacts;
    })

-- The transaction: an error rolls it back, and `err` stands for the database as it was.
unfoldable pub promote_artifact_to_ready : Ctx → Bytes → Bytes → Bytes → Db → Result Db
unfolding rename_artifact retarget
promote_artifact_to_ready c old_id new_id nzb_path db = exec c (do
  moved ← checked (record db { jobs = retarget new_id old_id db.jobs })
  rename_artifact c new_id nzb_path old_id moved)

unfoldable pub mark_artifact_failed : Ctx → Bytes → Db → Result Db
unfolding update_artifacts
mark_artifact_failed c id db = exec c (
    ok (record db {
      artifacts =
          update_artifacts (λ a. same a.id id)
            (λ a. record a { status = status_failed; updated_at = c.now }) db.artifacts;
    }))

unfoldable pub mark_artifact_notarized : Ctx → Bytes → Bytes → Db → Result Db
unfolding update_artifacts
mark_artifact_notarized c id tx_hash db = exec c (
    ok (record db {
      artifacts =
          update_artifacts (λ a. same a.id id)
            (λ a. record a {
              status = status_notarized;
              tx_hash = some tx_hash;
              updated_at = c.now;
            })
            db.artifacts;
    }))
