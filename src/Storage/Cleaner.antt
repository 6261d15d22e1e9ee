-- ===== src/Storage/Cleaner.antt =====
-- ol1n-vault/internal/storage/files.go: `sweep`. The contexts of the statements, the clocks and whether a
-- removal succeeds are data; an artifact's id is one component of a path.
pub mod Kept
pub mod Boundary
use ol1n_super_app.Base.{
  ℕ, ◌+◌, ◌≡◌, refl, Bool, true, false, ◌&&◌, ◌||◌, not, Option, none, some, List, [], ◌∷◌, ◌++◌,
  ltb, leb, if◌then◌else◌, Bytes, same,
}
use ol1n_super_app.Base.Ints.{ℤ, pos}
use ol1n_super_app.Db.Tables.{Db, DownloadToken, Result, ok, err, Ctx, exec}
use ol1n_super_app.Db.Tokens.{delete_expired_tokens}
use ol1n_super_app.Jobs.Worker.{FilePath, same_path}

abbrev pub Files : Type 0
Files = List (FilePath × Bytes)

-- Is the path the directory, or below it?
unfoldable pub is_below : FilePath → FilePath → Bool
unfolding same
is_below [] path = true
is_below (d ∷ ds) [] = false
is_below (d ∷ ds) (p ∷ ps) = same d p && is_below ds ps

-- `os.RemoveAll`
unfoldable pub remove_all : FilePath → Files → Files
unfolding is_below
remove_all dir [] = []
remove_all dir ((p, content) ∷ rest) =
    let others = remove_all dir rest in if is_below dir p then others else (p, content) ∷ others

-- `SELECT COUNT(*) ... WHERE artifact_id = ? AND expires_at > ?`
unfoldable pub count_live : Bytes → ℕ → List DownloadToken → ℕ
unfolding same
count_live artifact_id now [] = 0
count_live artifact_id now (t ∷ ts) =
    (if same t.artifact_id artifact_id && ltb now t.expires_at then 1 else 0)
    + count_live artifact_id now ts

unfoldable pub is_seen : Bytes → List Bytes → Bool
unfolding same
is_seen id [] = false
is_seen id (s ∷ ss) = same s id || is_seen id ss

-- The loop's own data: its statements' contexts, by round, and whether `RemoveAll` succeeds.
pub record Sweep : Type 0 where
  pub files_dir : FilePath
  pub count_ctx : ℕ → Ctx
  pub removes : ℕ → Bool

module _ (w : Sweep) (tokens : List DownloadToken) where
  abbrev pub artifact_dir : Bytes → FilePath
  artifact_dir id = w.files_dir ++ (id ∷ [])

  dropped : ℕ → Bytes → Files → Result ℕ → Files
  dropped k id files (err e) = files
  dropped k id files (ok count) =
      if ltb 0 count
      then files
      else if w.removes k
      then remove_all (artifact_dir id) files
      else files

  -- A round for an artifact that was not seen before.
  unfoldable pub drop_dir : ℕ → Bytes → Files → Files
  unfolding dropped count_live remove_all
  drop_dir k id files =
      dropped k id files (exec (w.count_ctx k) (ok (count_live id (w.count_ctx k).now tokens)))

  unfoldable pub drop_dirs : ℕ → List Bytes → List DownloadToken → Files → Files
  unfolding drop_dir is_seen
  drop_dirs k seen [] files = files
  drop_dirs k seen (t ∷ ts) files =
      let old = is_seen t.artifact_id seen in
      drop_dirs (k + 1) (if old then seen else t.artifact_id ∷ seen) ts
        (if old then files else drop_dir k t.artifact_id files)

abbrev pub swept : Sweep → Db → Files → Result (Db × List DownloadToken) → Db × Files
swept w db files (err e) = (db, files)
swept w db files (ok (db', expired)) = (db', drop_dirs w db'.download_tokens 0 [] expired files)

-- `sweep`
unfoldable pub sweep : Ctx → Ctx → ℕ → Sweep → Db → Files → Db × Files
unfolding drop_dirs
sweep read write now w db files = swept w db files (delete_expired_tokens read write now db)
