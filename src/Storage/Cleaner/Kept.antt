-- ===== src/Storage/Cleaner/Kept.antt =====
-- What a sweep leaves: the tokens that have not expired, and the files of their artifacts.
use ol1n_super_app.Base.{
  ap₂, lt→ltb, ◌⊎◌, ℕ, ◌+◌, ◌≤◌, ◌<◌, ◌≡◌, refl, ap, sym, subst, ◌∙◌, true, false, List, [], ◌∷◌,
  ◌++◌, arith, ltb, Bytes, same, same_iff, Bool-cases, inl, inr,
}
use ol1n_super_app.Db.Tables.{Db, DownloadToken, ok, Ctx}
use ol1n_super_app.Db.Tokens.{
  find_token, is_expired, select_tokens, delete_tokens, delete_expired_tokens,
}
use ol1n_super_app.Jobs.Worker.{FilePath, same_path, find_file}
use ol1n_super_app.Storage.Cleaner.{
  Files, is_below, remove_all, count_live, is_seen, Sweep, artifact_dir, dropped, drop_dir,
  drop_dirs, sweep,
}

pub same_refl : (a : Bytes) → same a a ≡ true
same_refl a = (same_iff a a).1 refl

pub same_path-eq : (p q : FilePath) → same_path p q ≡ true → p ≡ q
unfolding same_path
same_path-eq [] [] h = refl
same_path-eq [] (q ∷ qs) h = cc
same_path-eq (p ∷ ps) [] h = cc
same_path-eq (p ∷ ps) (q ∷ qs) h =
    ap₂ ◌∷◌ ((same_iff p q).0 (grind arith)) (same_path-eq ps qs (grind arith))

pub is_below-artifact_dir :
    (dir : FilePath) (id a name : Bytes)
    → is_below (dir ++ (id ∷ [])) (dir ++ (a ∷ name ∷ [])) ≡ same id a
unfolding is_below
is_below-artifact_dir [] id a name = ground arith
is_below-artifact_dir (d ∷ dir) id a name = rw (same_refl d) (is_below-artifact_dir dir id a name)

find_file-remove_all :
    (dir path : FilePath) (files : Files)
    → is_below dir path ≡ false
    → find_file path (remove_all dir files) ≡ find_file path files
unfolding find_file remove_all
find_file-remove_all dir path [] h = refl
find_file-remove_all dir path ((p, content) ∷ files) h = elim (Bool-cases (same_path p path)) [
  | inl e ↦ rw (subst (λ z. is_below dir z ≡ false) (sym (same_path-eq p path e)) h, e) refl
  | inr e ↦ ground (arith, find_file-remove_all dir path files h)
]

-- The token that is found stands in front, or it is found behind.
pub found-cases :
    (token : Bytes) (tok t : DownloadToken) (ts : List DownloadToken)
    → find_token token (t ∷ ts) ≡ ok tok
    → ((same t.token token ≡ true) × (t ≡ tok))
      ⊎ ((same t.token token ≡ false) × (find_token token ts ≡ ok tok))
unfolding find_token
found-cases token tok t ts h = elim (Bool-cases (same t.token token)) [
  | inl e ↦ inl (e, grind arith)
  | inr e ↦ inr (e, grind arith)
]

-- A token that lives is counted.
count_live-find_token :
    (token : Bytes) (tok : DownloadToken) (now : ℕ) (ts : List DownloadToken)
    → find_token token ts ≡ ok tok
    → now < tok.expires_at
    → 0 < count_live tok.artifact_id now ts
unfolding find_token count_live
count_live-find_token token tok now [] h live = cc
count_live-find_token token tok now (t ∷ ts) h live = elim (found-cases token tok t ts h) [
  | inl (e, q) ↦
      subst (λ z. 0 < count_live z.artifact_id now (t ∷ ts)) q
        (rw
          (
            same_refl t.artifact_id,
            lt→ltb now t.expires_at (subst (λ z. now < z.expires_at) (sym q) live),
          )
          (omega arith))
  | inr (e, later) ↦ omega (arith, count_live-find_token token tok now ts later live)
]

pub find_token-delete_tokens :
    (token : Bytes) (tok : DownloadToken) (now : ℕ) (ts : List DownloadToken)
    → find_token token ts ≡ ok tok
    → now ≤ tok.expires_at
    → find_token token (delete_tokens (is_expired now) ts) ≡ ok tok
unfolding find_token delete_tokens
find_token-delete_tokens token tok now [] h live = cc
find_token-delete_tokens token tok now (t ∷ ts) h live = elim (found-cases token tok t ts h) [
  | inl (e, q) ↦
      let kept : ltb t.expires_at now ≡ false =
        subst (λ z. ltb z.expires_at now ≡ false) (sym q) (ground arith) in
      rw kept (rw e (ap ok q))
  | inr (e, later) ↦ ground (arith, find_token-delete_tokens token tok now ts later live)
]

module _ (w : Sweep) (name token : Bytes) (tok : DownloadToken) (tokens : List DownloadToken)
    (found : find_token token tokens ≡ ok tok)
    (live : (k : ℕ) → (w.count_ctx k).now < tok.expires_at) where
  abbrev its_file : FilePath
  its_file = w.files_dir ++ (tok.artifact_id ∷ name ∷ [])

  drop_dir-Kept :
      (k : ℕ) (id : Bytes) (files : Files)
      → find_file its_file (drop_dir w tokens k id files) ≡ find_file its_file files
  unfolding drop_dir dropped
  drop_dir-Kept k id files = elim (Bool-cases (same id tok.artifact_id)) [
    | inl e ↦
        let counted =
          subst (λ z. 0 < count_live z (w.count_ctx k).now tokens)
            (sym ((same_iff id tok.artifact_id).0 e))
            (count_live-find_token token tok (w.count_ctx k).now tokens found (live k)) in
        ground (arith, counted)
    | inr e ↦ ground (
      arith,
      find_file-remove_all (artifact_dir w tokens id) its_file files
          (is_below-artifact_dir w.files_dir id tok.artifact_id name ∙ e),
    )
  ]

  drop_dirs-Kept :
      (k : ℕ) (seen : List Bytes) (ts : List DownloadToken) (files : Files)
      → find_file its_file (drop_dirs w tokens k seen ts files) ≡ find_file its_file files
  unfolding drop_dirs
  drop_dirs-Kept k seen [] files = refl
  drop_dirs-Kept k seen (t ∷ ts) files = elim (Bool-cases (is_seen t.artifact_id seen)) [
    | inl e ↦ rw e (drop_dirs-Kept (k + 1) seen ts files)
    | inr e ↦ rw e (
        drop_dirs-Kept (k + 1) (t.artifact_id ∷ seen) ts (drop_dir w tokens k t.artifact_id files)
        ∙ drop_dir-Kept k t.artifact_id files)
  ]

-- A sweep leaves alone what a live token stands for: a token that expires after every moment at which
-- the sweep reads the clock is still found, and each file of its artifact's directory is there with
-- the same contents, or is missing as before, whichever statements and removals fail.
pub sweep-Kept :
    (read write : Ctx) (now : ℕ) (w : Sweep) (db : Db) (files : Files) (token name : Bytes)
    (tok : DownloadToken)
    → find_token token db.download_tokens ≡ ok tok
    → now ≤ tok.expires_at
    → ((k : ℕ) → (w.count_ctx k).now < tok.expires_at)
    → (find_token token (sweep read write now w db files).0.download_tokens ≡ ok tok)
      × (find_file
            (w.files_dir ++ (tok.artifact_id ∷ name ∷ []))
            (sweep read write now w db files).1
          ≡ find_file (w.files_dir ++ (tok.artifact_id ∷ name ∷ [])) files)
unfolding sweep delete_expired_tokens
sweep-Kept read write now w db files token name tok found not_expired live =
    elim (Bool-cases read.refuses) [
      | inl e ↦ rw e (found, refl)
      | inr e ↦ elim (Bool-cases write.refuses) [
        | inl e' ↦ rw (e, e') (found, refl)
        | inr e' ↦
            let still =
              find_token-delete_tokens token tok now db.download_tokens found not_expired in
            rw (e, e')
              (
                still,
                drop_dirs-Kept w name token tok _ still live 0 []
                    (select_tokens (is_expired now) db.download_tokens) files,
              )
      ]
    ]
