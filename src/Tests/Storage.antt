-- ===== src/Tests/Storage.antt =====
-- ol1n-vault/internal/storage: the theorems at concrete inputs.
use ol1n_super_app.Base.{ℕ, ◌≡◌, refl, true, false, none, [], ◌∷◌, Bytes, codes, arith, same, ltb}
use ol1n_super_app.Db.Tables.{Db, DownloadToken, fresh_db, ok, Ctx}
use ol1n_super_app.Db.Tokens.{find_token}
use ol1n_super_app.Jobs.Worker.{find_file}
use ol1n_super_app.Storage.Cleaner.{Files, Sweep, count_live, sweep}
use ol1n_super_app.Storage.Cleaner.Kept.{sweep-Kept}
use ol1n_super_app.Storage.Cleaner.Boundary.{sweep-boundary}

abbrev at : ℕ → Ctx
at now = record { now = now; refuses = false }

abbrev token_until : Bytes → ℕ → DownloadToken
token_until token expires_at = record {
  token = token;
  artifact_id = codes "a1";
  expires_at = expires_at;
  created_at = 1;
}

abbrev two_tokens : Db
two_tokens = record fresh_db {
  download_tokens = token_until (codes "t1") 100 ∷ token_until (codes "t2") 200 ∷ [];
}

abbrev one_file : Files
one_file = (codes "files" ∷ codes "a1" ∷ codes "cat.png" ∷ [], 65 ∷ []) ∷ []

abbrev sweep_at : ℕ → Sweep
sweep_at now = record {
  files_dir = codes "files" ∷ [];
  count_ctx = λ k. at now;
  removes = λ k. true;
}

first_token : find_token (codes "t1") two_tokens.download_tokens ≡ ok (token_until (codes "t1") 100)
unfolding find_token same
first_token = refl

second_token :
    find_token (codes "t2") two_tokens.download_tokens ≡ ok (token_until (codes "t2") 200)
unfolding find_token same
second_token = refl

none_later : count_live (codes "a1") 200 two_tokens.download_tokens ≡ 0
unfolding count_live same
none_later = refl

sweep-Kept_example :
    (find_token
        (codes "t2")
        (sweep (at 150) (at 150) 150 (sweep_at 150) two_tokens one_file).0.download_tokens
      ≡ ok (token_until (codes "t2") 200))
    × (find_file
          (codes "files" ∷ codes "a1" ∷ codes "cat.png" ∷ [])
          (sweep (at 150) (at 150) 150 (sweep_at 150) two_tokens one_file).1
        ≡ find_file (codes "files" ∷ codes "a1" ∷ codes "cat.png" ∷ []) one_file)
sweep-Kept_example =
    sweep-Kept (at 150) (at 150) 150 (sweep_at 150) two_tokens one_file (codes "t2")
      (codes "cat.png") (token_until (codes "t2") 200) second_token (omega arith) (λ k. omega arith)

sweep-boundary_example :
    (find_token
        (codes "t2")
        (sweep (at 200) (at 200) 200 (sweep_at 200) two_tokens one_file).0.download_tokens
      ≡ ok (token_until (codes "t2") 200))
    × (ltb 200 200 ≡ false)
    × (find_file
          (codes "files" ∷ codes "a1" ∷ codes "cat.png" ∷ [])
          (sweep (at 200) (at 200) 200 (sweep_at 200) two_tokens one_file).1
        ≡ none)
sweep-boundary_example =
    sweep-boundary (at 200) (at 200) 200 (sweep_at 200) two_tokens one_file (codes "t2")
      (codes "t1") (codes "cat.png") (token_until (codes "t2") 200) (token_until (codes "t1") 100)
      (refl, refl) (λ k. (refl, refl, omega arith)) (second_token, refl) (first_token, omega arith)
      refl none_later
