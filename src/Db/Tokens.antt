-- ===== src/Db/Tokens.antt =====
-- queries.go: the statements on download_tokens.
use ol1n_super_app.Base.{ℕ, ◌+◌, Bool, List, [], ◌∷◌, ◌++◌, ltb, if◌then◌else◌, Bytes, same}
use ol1n_super_app.Db.Tables.{
  DownloadToken, Db, not_found, constraint, Result, ok, err, ◌>>=◌, Ctx, exec, has_token, checked,
}

-- The time to live is in seconds: `FilesTTL` is whole hours.
unfoldable pub insert_download_token : Ctx → Bytes → Bytes → ℕ → Db → Result Db
insert_download_token c token artifact_id ttl db = exec c (
    if has_token token db.download_tokens
    then err constraint
    else checked (record db {
      download_tokens =
          db.download_tokens
          ++ (record {
            token = token;
            artifact_id = artifact_id;
            expires_at = c.now + ttl;
            created_at = c.now;
          }
              ∷ []);
    }))

unfoldable pub find_token : Bytes → List DownloadToken → Result DownloadToken
find_token token [] = err not_found
find_token token (t ∷ ts) = if same t.token token then ok t else find_token token ts

unfoldable pub get_download_token : Ctx → Bytes → Db → Result DownloadToken
unfolding find_token
get_download_token c token db = exec c (find_token token db.download_tokens)

abbrev pub is_expired : ℕ → DownloadToken → Bool
is_expired now t = ltb t.expires_at now

unfoldable pub select_tokens : (DownloadToken → Bool) → List DownloadToken → List DownloadToken
select_tokens test [] = []
select_tokens test (t ∷ ts) = let rest = select_tokens test ts in if test t then t ∷ rest else rest

unfoldable pub delete_tokens : (DownloadToken → Bool) → List DownloadToken → List DownloadToken
delete_tokens test [] = []
delete_tokens test (t ∷ ts) = let rest = delete_tokens test ts in if test t then rest else t ∷ rest

-- The SELECT and the DELETE are two statements, each with its own context.
unfoldable pub delete_expired_tokens : Ctx → Ctx → ℕ → Db → Result (Db × List DownloadToken)
unfolding select_tokens delete_tokens
delete_expired_tokens read write now db = do
  expired ← exec read (ok (select_tokens (is_expired now) db.download_tokens))
  exec write (
      ok (
        record db { download_tokens = delete_tokens (is_expired now) db.download_tokens },
        expired,
      ))
