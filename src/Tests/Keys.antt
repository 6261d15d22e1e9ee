-- ===== src/Tests/Keys.antt =====
-- ol1n-vault/internal/db and ol1n-vault/internal/jobs: reachable tables, and a payment, at concrete inputs.
use ol1n_super_app.Base.{◌≡◌, refl, true, false, [], ◌∷◌, codes, same}
use ol1n_super_app.Db.Tables.{
  Db, fresh_db, Ctx, ok, has_artifact, has_job, has_token, jobs_refer, tokens_refer,
}
use ol1n_super_app.Db.Artifacts.{insert_artifact_pending, mark_payment_confirmed, any_artifact}
use ol1n_super_app.Tests.Files.{calm, cat}
use ol1n_super_app.Jobs.Start.Inserted.{new_artifact}
use ol1n_super_app.Db.Jobs.{insert_job}
use ol1n_super_app.Db.Integrity.{IsIntact}
use ol1n_super_app.Db.Tokens.{
  insert_download_token, delete_expired_tokens, get_download_token, select_tokens, delete_tokens,
}
use ol1n_super_app.Db.Integrity.TokenMap.{
  TokenRun, unchanged, inserted, expired, replay, view, row_of, get_download_token-replay,
}
use ol1n_super_app.Db.Integrity.Reachable.{Reach, opened, later, artifact_inserted, Reach-IsIntact}
use ol1n_super_app.Jobs.Start.{Setup, submits, start_from_payment_confirm}
use ol1n_super_app.Jobs.Start.Whole.{init_upload-starts}
use ol1n_super_app.Handler.Upload.{init_upload}
use ol1n_super_app.Handler.Filename.{sanitize_filename}

abbrev live : Ctx
live = record { now = 1700000000; refuses = false }

abbrev one_row : Db
one_row = record fresh_db {
  artifacts =
      new_artifact live (codes "a1") (codes "cat.png") (codes "image/png") 3 (codes "p1") ∷ [];
}

one_inserted :
    insert_artifact_pending live
      (codes "a1")
      (codes "cat.png")
      (codes "image/png")
      3
      (codes "p1")
      fresh_db
    ≡ ok one_row
unfolding insert_artifact_pending has_artifact
one_inserted = refl

row_reached : Reach one_row
row_reached = later opened (
    artifact_inserted live (codes "a1") (codes "cat.png") (codes "image/png") 3 (codes "p1")
      one_inserted)

its_rows : IsIntact one_row
its_rows = Reach-IsIntact row_reached

Reach-IsIntact_example : IsIntact one_row
Reach-IsIntact_example = Reach-IsIntact row_reached

abbrev here : Setup
here = record {
  path_of = λ p. p ∷ [];
  nzb_dir = codes "/nzb" ∷ [];
  poster = codes "vault";
  newsgroup = codes "alt.binaries.test";
}

answered : (init_upload calm live live (codes "j1") (codes "/tmp/j1") fresh_db).status ≡ 200
unfolding init_upload insert_artifact_pending insert_job has_artifact has_job jobs_refer same
    tokens_refer
answered = refl

init_upload-starts_example :
    (paid : Db) × (mark_payment_confirmed live
        (codes "j1")
        (codes "finished")
        (init_upload calm live live (codes "j1") (codes "/tmp/j1") fresh_db).db
      ≡ ok (paid, true))
    × (start_from_payment_confirm here live live (codes "j1") paid
        ≡ submits (record {
          job_id = codes "j1";
          artifact_id = codes "j1";
          filename = sanitize_filename (codes "cat.png");
          tmp_path = codes "/tmp/j1" ∷ [];
          nzb_dir = codes "/nzb" ∷ [];
          poster = codes "vault";
          newsgroup = codes "alt.binaries.test";
        }))
unfolding any_artifact
init_upload-starts_example =
    init_upload-starts calm here live live live live live (codes "j1") (codes "/tmp/j1")
      (codes "finished") fresh_db cat (codes "j1") (Reach-IsIntact opened) answered refl refl refl
      refl refl refl refl

-- A token of an artifact, and a deletion after it has expired.
abbrev one_token : Db
one_token = record one_row {
  download_tokens =
      record {
        token = codes "t1";
        artifact_id = codes "a1";
        expires_at = 1700003600;
        created_at = 1700000000;
      }
      ∷ [];
}

token_went : insert_download_token live (codes "t1") (codes "a1") 3600 one_row ≡ ok one_token
unfolding insert_download_token has_token jobs_refer tokens_refer has_artifact same
token_went = refl

deleted :
    delete_expired_tokens live live 1700003601 one_token ≡ ok (one_row, one_token.download_tokens)
unfolding delete_expired_tokens select_tokens delete_tokens
deleted = refl

abbrev token_run : TokenRun one_row one_row
token_run =
    expired (inserted unchanged live (codes "t1") (codes "a1") 3600 token_went) live live 1700003601
      one_token.download_tokens deleted

get_download_token-replay_example :
    get_download_token live (codes "t1") one_row
    ≡ row_of (replay token_run (view one_row) (codes "t1"))
get_download_token-replay_example =
    get_download_token-replay token_run live (codes "t1") its_rows refl
