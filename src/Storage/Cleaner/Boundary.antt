-- ===== src/Storage/Cleaner/Boundary.antt =====
-- What a sweep removes, and the second in which a token expires.
use ol1n_super_app.Base.{
  lt→ltb, ℕ, ◌+◌, ◌≤◌, ◌<◌, ◌≡◌, ◌⊎◌, refl, ap, sym, subst, ◌∙◌, true, false, none, List, [], ◌∷◌,
  ◌++◌, arith, ltb, Bytes, same, same_iff, Bool-cases, inl, inr,
}
use ol1n_super_app.Db.Tables.{Db, DownloadToken, ok, Ctx}
use ol1n_super_app.Db.Tokens.{
  find_token, is_expired, select_tokens, delete_tokens, delete_expired_tokens,
}
use ol1n_super_app.Jobs.Worker.{FilePath, same_path, find_file}
use ol1n_super_app.Storage.Cleaner.{
  Files, is_below, remove_all, count_live, is_seen, Sweep, artifact_dir, dropped, drop_dir,
  drop_dirs, sweep,
}
use ol1n_super_app.Storage.Cleaner.Kept.{
  same_refl, same_path-eq, is_below-artifact_dir, found-cases, find_token-delete_tokens,
}

-- Fewer tokens and a later clock count less.
count_live-delete_tokens :
    (id : Bytes) (now at : ℕ) (ts : List DownloadToken)
    → now ≤ at
    → count_live id now ts ≡ 0
    → count_live id at (delete_tokens (is_expired now) ts) ≡ 0
unfolding count_live delete_tokens
count_live-delete_tokens id now at [] h e = refl
count_live-delete_tokens id now at (t ∷ ts) h e =
    ground (arith, count_live-delete_tokens id now at ts h)

find_file-gone :
    (dir path : FilePath) (files : Files)
    → is_below dir path ≡ true
    → find_file path (remove_all dir files) ≡ none
unfolding find_file remove_all
find_file-gone dir path [] h = refl
find_file-gone dir path ((p, content) ∷ files) h = elim (Bool-cases (same_path p path)) [
  | inl e ↦
      rw (subst (λ z. is_below dir z ≡ true) (sym (same_path-eq p path e)) h)
        (find_file-gone dir path files h)
  | inr e ↦ ground (arith, find_file-gone dir path files h)
]

-- A file that is missing stays missing.
find_file-missing :
    (dir path : FilePath) (files : Files)
    → find_file path files ≡ none
    → find_file path (remove_all dir files) ≡ none
unfolding find_file remove_all
find_file-missing dir path [] h = refl
find_file-missing dir path ((p, content) ∷ files) h =
    ground (arith, find_file-missing dir path files)

-- Some token in the list belongs to the artifact.
abbrev HasOf : Bytes → List DownloadToken → Type 0
HasOf id [] = ⊥
HasOf id (t ∷ ts) = (t.artifact_id ≡ id) ⊎ HasOf id ts

select_tokens-HasOf :
    (token : Bytes) (old : DownloadToken) (now : ℕ) (ts : List DownloadToken)
    → find_token token ts ≡ ok old
    → old.expires_at < now
    → HasOf old.artifact_id (select_tokens (is_expired now) ts)
unfolding select_tokens find_token
select_tokens-HasOf token old now [] h e = cc
select_tokens-HasOf token old now (t ∷ ts) h e = elim (found-cases token old t ts h) [
  | inl (f, q) ↦
      let past : ltb t.expires_at now ≡ true =
        subst (λ z. ltb z.expires_at now ≡ true) (sym q) (lt→ltb old.expires_at now e) in
      rw past (inl (ap (λ z. z.artifact_id) q))
  | inr (f, later) ↦ elim (Bool-cases (ltb t.expires_at now)) [
    | inl b ↦ rw b (inr (select_tokens-HasOf token old now ts later e))
    | inr b ↦ rw b (select_tokens-HasOf token old now ts later e)
  ]
]

module _ (w : Sweep) (name id : Bytes) (tokens : List DownloadToken)
    (works : (k : ℕ)
      → ((w.count_ctx k).refuses ≡ false)
        × (w.removes k ≡ true)
        × (count_live id (w.count_ctx k).now tokens ≡ 0)) where
  abbrev the_file : FilePath
  the_file = w.files_dir ++ (id ∷ name ∷ [])

  drop_dir-gone : (k : ℕ) (files : Files) → find_file the_file (drop_dir w tokens k id files) ≡ none
  unfolding drop_dir dropped
  drop_dir-gone k files =
      let (live, removed, uncounted) = works k in
      rw (live, uncounted, removed)
        (find_file-gone (artifact_dir w tokens id) the_file files
          (is_below-artifact_dir w.files_dir id id name ∙ same_refl id))

  drop_dir-missing :
      (k : ℕ) (other : Bytes) (files : Files)
      → find_file the_file files ≡ none
      → find_file the_file (drop_dir w tokens k other files) ≡ none
  unfolding drop_dir dropped
  drop_dir-missing k other files h =
      ground (arith, find_file-missing (artifact_dir w tokens other) the_file files h)

  drop_dirs-missing :
      (k : ℕ) (seen : List Bytes) (ts : List DownloadToken) (files : Files)
      → find_file the_file files ≡ none
      → find_file the_file (drop_dirs w tokens k seen ts files) ≡ none
  unfolding drop_dirs
  drop_dirs-missing k seen [] files h = h
  drop_dirs-missing k seen (t ∷ ts) files h = elim (Bool-cases (is_seen t.artifact_id seen)) [
    | inl e ↦ rw e (drop_dirs-missing (k + 1) seen ts files h)
    | inr e ↦ rw e (
        drop_dirs-missing (k + 1) (t.artifact_id ∷ seen) ts
          (drop_dir w tokens k t.artifact_id files) (drop_dir-missing k t.artifact_id files h))
  ]

  drop_dirs-gone :
      (k : ℕ) (seen : List Bytes) (ts : List DownloadToken) (files : Files)
      → is_seen id seen ≡ false
      → HasOf id ts
      → find_file the_file (drop_dirs w tokens k seen ts files) ≡ none
  unfolding drop_dirs is_seen
  drop_dirs-gone k seen [] files unseen h = elim h [ ]
  drop_dirs-gone k seen (t ∷ ts) files unseen h = elim (Bool-cases (same t.artifact_id id)) [
    | inl e ↦
        let q = (same_iff t.artifact_id id).0 e in
        rw (subst (λ z. is_seen z seen ≡ false) (sym q) unseen) (
          drop_dirs-missing (k + 1) (t.artifact_id ∷ seen) ts
            (drop_dir w tokens k t.artifact_id files)
            (subst (λ z. find_file the_file (drop_dir w tokens k z files) ≡ none) (sym q)
              (drop_dir-gone k files)))
    | inr e ↦ elim (Bool-cases (is_seen t.artifact_id seen)) [
      | inl e' ↦ rw e' (drop_dirs-gone (k + 1) seen ts files unseen (later t ts e h))
      | inr e' ↦ rw e' (
          drop_dirs-gone (k + 1) (t.artifact_id ∷ seen) ts (drop_dir w tokens k t.artifact_id files)
            (rw e unseen) (later t ts e h))
    ]
  ]
    where
      later :
          (t : DownloadToken) (ts : List DownloadToken)
          → same t.artifact_id id ≡ false
          → HasOf id (t ∷ ts)
          → HasOf id ts
      later t ts e (inl q) = absurd (cc (e, (same_iff t.artifact_id id).1 q))
      later t ts e (inr h) = h

-- A sweep at the very second in which a token expires takes the files away from it. If an older token
-- of the artifact has expired by then, no token of the artifact expires later, the clock does not run
-- backwards and no statement or removal fails, then the token is still in the table, and still counts
-- as valid to `serveFile` in that second, but no file of the artifact's directory is left.
pub sweep-boundary :
    (read write : Ctx) (now : ℕ) (w : Sweep) (db : Db) (files : Files)
    (token old_token name : Bytes) (tok old : DownloadToken)
    → (read.refuses ≡ false) × (write.refuses ≡ false)
    → ((k : ℕ)
        → ((w.count_ctx k).refuses ≡ false) × (w.removes k ≡ true) × (now ≤ (w.count_ctx k).now))
    → (find_token token db.download_tokens ≡ ok tok) × (tok.expires_at ≡ now)
    → (find_token old_token db.download_tokens ≡ ok old) × (old.expires_at < now)
    → old.artifact_id ≡ tok.artifact_id
    → count_live tok.artifact_id now db.download_tokens ≡ 0
    → (find_token token (sweep read write now w db files).0.download_tokens ≡ ok tok)
      × (ltb tok.expires_at now ≡ false)
      × (find_file
            (w.files_dir ++ (tok.artifact_id ∷ name ∷ []))
            (sweep read write now w db files).1
          ≡ none)
unfolding sweep delete_expired_tokens
sweep-boundary read write now w db files token old_token name tok old (e, e') works (found, at)
      (found', past) same_one none_later =
    let works' : (k : ℕ)
        → ((w.count_ctx k).refuses ≡ false)
          × (w.removes k ≡ true)
          × (count_live tok.artifact_id (w.count_ctx k).now
                (delete_tokens (is_expired now) db.download_tokens)
              ≡ 0) =
      λ k.
        let (live, removed, after_now) = works k in
        (
          live,
          removed,
          count_live-delete_tokens tok.artifact_id now (w.count_ctx k).now db.download_tokens
              after_now none_later,
        ) in
    rw (e, e')
      (
        find_token-delete_tokens token tok now db.download_tokens found (omega arith),
        ground arith,
        drop_dirs-gone w name tok.artifact_id (delete_tokens (is_expired now) db.download_tokens)
            works' 0 [] (select_tokens (is_expired now) db.download_tokens) files refl
            (subst (λ z. HasOf z (select_tokens (is_expired now) db.download_tokens)) same_one
              (select_tokens-HasOf old_token old now db.download_tokens found' past)),
      )
