-- ===== src/Handler/Download/Access.antt =====
-- What a client has to have for a download or for a file.
use ol1n_super_app.Base.{
  ◌≢◌, ℕ, ◌≤◌, ◌≡◌, refl, ◌⊎◌, inl, inr, true, false, Option, none, some, [], arith, ltb, Bytes,
  Bool-cases, Option-cases,
}
use ol1n_super_app.Db.Tables.{
  Db, Artifact, DownloadToken, not_found, constraint, refused, Result, ok, err, Ctx,
  job_type_download,
}
use ol1n_super_app.Db.Artifacts.{get_artifact}
use ol1n_super_app.Db.Jobs.{insert_job}
use ol1n_super_app.Db.Tokens.{get_download_token}
use ol1n_super_app.Handler.Filename.{is_bad_filename}
use ol1n_super_app.Handler.Download.{
  inserted, is_stored, looked_up, request, file, with_token, serve_file, DownloadJob,
}

-- The artifact is there, it is stored, and its job was inserted.
abbrev pub Granted : Ctx → Ctx → Bytes → Bytes → Db → DownloadJob → Db → Type 0
Granted read write job_id artifact_id db j db' =
    (a : Artifact) × (get_artifact read artifact_id db ≡ ok a)
    × (is_stored a ≡ true)
    × (a.nzb_path ≡ some j.nzb_path)
    × (j.artifact_id ≡ a.id)
    × (j.filename ≡ a.filename)
    × (insert_job write job_id a.id job_type_download [] db ≡ ok db')

-- A request for a download that does not submit a job leaves the tables as they were and is not
-- answered 200; one that submits a job is answered 200, found the artifact ready or notarized with
-- its NZB path, and stored the job.
pub request_lem :
    (read write : Ctx) (job_id artifact_id : Bytes) (db : Db)
    → let r = request read write job_id artifact_id db in
      ((r.submits ≡ none) × (r.db ≡ db) × (r.status ≢ 200))
      ⊎ ((j : DownloadJob) × (r.submits ≡ some j)
          × (r.status ≡ 200)
          × Granted read write job_id artifact_id db j r.db)
unfolding request
request_lem read write job_id artifact_id db = found (get_artifact read artifact_id db) refl
  where
    stored :
        (a : Artifact) (path : Bytes) (r : Result Db)
        → get_artifact read artifact_id db ≡ ok a
        → is_stored a ≡ true
        → a.nzb_path ≡ some path
        → insert_job write job_id a.id job_type_download [] db ≡ r
        → let p = inserted job_id a path db r in
          ((p.submits ≡ none) × (p.db ≡ db) × (p.status ≢ 200))
          ⊎ ((j : DownloadJob) × (p.submits ≡ some j)
              × (p.status ≡ 200)
              × Granted read write job_id artifact_id db j p.db)
    stored a path (err e) h s q i = inl (refl, refl, ground arith)
    stored a path (ok db') h s q i = inr (_, refl, refl, (a, h, s, q, refl, refl, i))

    found :
        (o : Result Artifact)
        → get_artifact read artifact_id db ≡ o
        → let p = looked_up write job_id db o in
          ((p.submits ≡ none) × (p.db ≡ db) × (p.status ≢ 200))
          ⊎ ((j : DownloadJob) × (p.submits ≡ some j)
              × (p.status ≡ 200)
              × Granted read write job_id artifact_id db j p.db)
    found (err not_found) h = inl (refl, refl, ground arith)
    found (err constraint) h = inl (refl, refl, ground arith)
    found (err refused) h = inl (refl, refl, ground arith)
    found (ok a) h = elim (Bool-cases (is_stored a)) [
      | inl s ↦ elim (Option-cases a.nzb_path) [
        | inl q ↦ rw (s, q) (inl (refl, refl, ground arith))
        | inr (path, q) ↦ rw (s, q) (stored a path _ h s q refl)
      ]
      | inr s ↦ rw s (inl (refl, refl, ground arith))
    ]

-- A file is served only for a token that the table has and that has not expired, from the directory
-- of the token's artifact, under the name in the URL, which has no slash or backslash and is
-- neither empty nor "." nor "..".
pub serve_file_lem :
    (read reread : Ctx) (now : ℕ) (token filename : Bytes) (db : Db) (artifact_id name : Bytes)
    (type : Option Bytes)
    → serve_file read now reread token filename db ≡ file artifact_id name type
    → (tok : DownloadToken) × (get_download_token read token db ≡ ok tok)
      × (now ≤ tok.expires_at)
      × (artifact_id ≡ tok.artifact_id)
      × (name ≡ filename)
      × (is_bad_filename filename ≡ false)
unfolding serve_file
serve_file_lem read reread now token filename db artifact_id name type h =
    found (get_download_token read token db) refl h
  where
    found :
        (o : Result DownloadToken)
        → get_download_token read token db ≡ o
        → with_token reread now filename db o ≡ file artifact_id name type
        → (tok : DownloadToken) × (get_download_token read token db ≡ ok tok)
          × (now ≤ tok.expires_at)
          × (artifact_id ≡ tok.artifact_id)
          × (name ≡ filename)
          × (is_bad_filename filename ≡ false)
    found (err not_found) e h' = cc
    found (err constraint) e h' = cc
    found (err refused) e h' = cc
    found (ok tok) e h' = elim (Bool-cases (ltb tok.expires_at now)) [
      | inl late ↦ let h'' = rw late at h' in cc
      | inr live ↦ elim (Bool-cases (is_bad_filename filename)) [
        | inl bad ↦ let h'' = rw (live, bad) at h' in cc
        | inr good ↦ let h'' = rw (live, good) at h' in (tok, e, ground (arith, live), cc, cc, good)
      ]
    ]
