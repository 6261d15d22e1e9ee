-- ===== src/Db/Integrity/TokenMap.antt =====
-- The table of download tokens as a map from texts to rows.
use ol1n_super_app.Base.{
  ltb, ℕ, ◌+◌, ◌≡◌, refl, ap, sym, subst, ◌∙◌, true, false, Option, none, some, List, [], ◌∷◌, ◌++◌,
  if◌then◌else◌, Bytes, same, same_iff, arith, Bool-cases, inl, inr,
}
use ol1n_super_app.Db.Tables.{
  DownloadToken, Db, not_found, constraint, Result, ok, err, Ctx, has_token,
}
use ol1n_super_app.Db.Tokens.{
  insert_download_token, find_token, get_download_token, is_expired, delete_tokens,
  delete_expired_tokens,
}
use ol1n_super_app.Db.Integrity.{token_ids, is_in, IsDistinct, IsIntact, has_token-is_in}
use ol1n_super_app.Db.Integrity.Statements.{exec-ok, ok-injective, unless_err}
use ol1n_super_app.Db.Integrity.Rows.{
  insert_download_token-IsIntact, delete_expired_tokens-IsIntact,
}

-- The abstract table and its operations.
abbrev pub TokenMap : Type 0
TokenMap = Bytes → Option DownloadToken

abbrev pub put : DownloadToken → TokenMap → TokenMap
put row m token = if same row.token token then some row else m token

abbrev pub unless_expired : ℕ → Option DownloadToken → Option DownloadToken
unless_expired now none = none
unless_expired now (some row) = if ltb row.expires_at now then none else some row

abbrev pub drop_expired : ℕ → TokenMap → TokenMap
drop_expired now m token = unless_expired now (m token)

-- What the table says of a token.
abbrev pub row_of : Option DownloadToken → Result DownloadToken
row_of none = err not_found
row_of (some row) = ok row

abbrev pub found : Result DownloadToken → Option DownloadToken
found (err e) = none
found (ok row) = some row

abbrev pub view : Db → TokenMap
view db token = found (find_token token db.download_tokens)

-- The statements that change the table, each one that went through.
pub data TokenRun (db : Db) : Db → Type 0 where
  unchanged : TokenRun db db
  inserted :
      {before after : Db}
      → TokenRun db before
      → (c : Ctx) (token artifact_id : Bytes) (ttl : ℕ)
      → insert_download_token c token artifact_id ttl before ≡ ok after
      → TokenRun db after
  expired :
      {before after : Db}
      → TokenRun db before
      → (read write : Ctx) (now : ℕ) (gone : List DownloadToken)
      → delete_expired_tokens read write now before ≡ ok (after, gone)
      → TokenRun db after

-- The same statements on the map.
unfoldable pub replay : {db after : Db} → TokenRun db after → TokenMap → TokenMap
replay unchanged m = m
replay (inserted run c token artifact_id ttl went) m =
    put
      (record {
        token = token;
        artifact_id = artifact_id;
        expires_at = c.now + ttl;
        created_at = c.now;
      })
      (replay run m)
replay (expired run read write now gone went) m = drop_expired now (replay run m)

same_apart : (a b c : Bytes) → same a c ≡ true → same a b ≡ false → same b c ≡ false
same_apart a b c e f = elim (Bool-cases (same b c)) [
  | inl e' ↦ absurd (cc (rw ((same_iff b c).0 e') at f, e))
  | inr e' ↦ e'
]

found-snoc :
    (token : Bytes) (ts : List DownloadToken) (row : DownloadToken)
    → is_in row.token (token_ids ts) ≡ false
    → found (find_token token (ts ++ (row ∷ []))) ≡ put row (λ t. found (find_token t ts)) token
unfolding find_token is_in
found-snoc token [] row new = elim (Bool-cases (same row.token token)) [
  | inl e ↦ rw e refl
  | inr e ↦ rw e refl
]
found-snoc token (t ∷ ts) row new = elim (Bool-cases (same t.token token)) [
  | inl e ↦
      let apart : same t.token row.token ≡ false = ground arith in
      rw (e, same_apart t.token row.token token e apart) refl
  | inr e ↦ rw (e, found-snoc token ts row (ground arith)) refl
]

absent-found :
    (token : Bytes) (ts : List DownloadToken)
    → is_in token (token_ids ts) ≡ false
    → find_token token ts ≡ err not_found
unfolding find_token is_in
absent-found token [] h = refl
absent-found token (t ∷ ts) h = ground (arith, absent-found token ts)

found-delete_tokens :
    (now : ℕ) (token : Bytes) (ts : List DownloadToken)
    → IsDistinct (token_ids ts)
    → found (find_token token (delete_tokens (is_expired now) ts))
      ≡ unless_expired now (found (find_token token ts))
unfolding find_token delete_tokens
found-delete_tokens now token [] h = refl
found-delete_tokens now token (t ∷ ts) (ht, h) = elim (Bool-cases (is_expired now t)) [
  | inl x ↦ elim (Bool-cases (same t.token token)) [
    | inl e ↦
        let gone : is_in token (token_ids ts) ≡ false = rw ((same_iff t.token token).0 e) at ht in
        rw (x, e, found-delete_tokens now token ts h, absent-found token ts gone) (rw x refl)
    | inr e ↦ rw (x, e) (found-delete_tokens now token ts h)
  ]
  | inr x ↦ elim (Bool-cases (same t.token token)) [
    | inl e ↦ rw (x, e) (rw x refl)
    | inr e ↦ rw (x, e) (found-delete_tokens now token ts h)
  ]
]

insert_download_token-view :
    (c : Ctx) (token artifact_id : Bytes) (ttl : ℕ) (before after : Db)
    → insert_download_token c token artifact_id ttl before ≡ ok after
    → (t : Bytes)
    → view after t
      ≡ put
          (record {
            token = token;
            artifact_id = artifact_id;
            expires_at = c.now + ttl;
            created_at = c.now;
          })
          (view before)
          t
unfolding insert_download_token
insert_download_token-view c token artifact_id ttl before after went t =
    let (absent, q) =
      unless_err (has_token token before.download_tokens) constraint _ after
        (exec-ok c _ after went) in
    let stored = ok-injective (unless_err _ constraint _ after q).1 in
    subst
      (λ d.
        view d t
        ≡ put
            (record {
              token = token;
              artifact_id = artifact_id;
              expires_at = c.now + ttl;
              created_at = c.now;
            })
            (view before) t)
      stored
      (found-snoc t before.download_tokens _
        (sym (has_token-is_in token before.download_tokens) ∙ absent))

delete_expired_tokens-view :
    (read write : Ctx) (now : ℕ) (before after : Db) (gone : List DownloadToken)
    → IsDistinct (token_ids before.download_tokens)
    → delete_expired_tokens read write now before ≡ ok (after, gone)
    → (t : Bytes) → view after t ≡ drop_expired now (view before) t
unfolding delete_expired_tokens
delete_expired_tokens-view read write now before after gone h went t =
    elim (Bool-cases read.refuses) [
      | inl e ↦ absurd (cc (rw e at went))
      | inr e ↦ elim (Bool-cases write.refuses) [
        | inl e' ↦ absurd (cc (rw (e, e') at went))
        | inr e' ↦
            subst (λ r. view r.0 t ≡ drop_expired now (view before) t)
              (ok-injective (rw (e, e') at went))
              (found-delete_tokens now t before.download_tokens h)
      ]
    ]

TokenRun-IsIntact : {db after : Db} → TokenRun db after → IsIntact db → IsIntact after
TokenRun-IsIntact unchanged h = h
TokenRun-IsIntact (inserted {before} {after} run c token artifact_id ttl went) h =
    insert_download_token-IsIntact c before after (TokenRun-IsIntact run h) token artifact_id ttl
      went
TokenRun-IsIntact (expired {before} {after} run read write now gone went) h =
    delete_expired_tokens-IsIntact read write now before after gone (TokenRun-IsIntact run h) went

view-replay :
    {db after : Db} (run : TokenRun db after)
    → IsIntact db
    → (t : Bytes) → view after t ≡ replay run (view db) t
unfolding replay
view-replay unchanged h t = refl
view-replay (inserted {before} {after} run c token artifact_id ttl went) h t =
    insert_download_token-view c token artifact_id ttl before after went t
    ∙ ap
        (λ o.
          if same token t
          then some (record {
            token = token;
            artifact_id = artifact_id;
            expires_at = c.now + ttl;
            created_at = c.now;
          })
          else o)
        (view-replay run h t)
view-replay (expired {before} {after} run read write now gone went) h t =
    delete_expired_tokens-view read write now before after gone
      (TokenRun-IsIntact run h).tokens_distinct went t
    ∙ ap (unless_expired now) (view-replay run h t)

find_token-row_of :
    (token : Bytes) (ts : List DownloadToken)
    → find_token token ts ≡ row_of (found (find_token token ts))
unfolding find_token
find_token-row_of token [] = refl
find_token-row_of token (t ∷ ts) = elim (Bool-cases (same t.token token)) [
  | inl e ↦ rw e refl
  | inr e ↦ rw e (find_token-row_of token ts)
]

-- The table of tokens refines a map: from intact tables, after any insertions and deletions of expired
-- tokens that went through, in any order and with any clocks, `GetDownloadToken` answers, when its
-- statement is not refused, what the same operations give on the map from tokens to rows, where an
-- insertion puts one row and a deletion drops the rows whose time of expiry is before its own.
pub get_download_token-replay :
    {db after : Db} (run : TokenRun db after) (c : Ctx) (token : Bytes)
    → IsIntact db
    → c.refuses ≡ false
    → get_download_token c token after ≡ row_of (replay run (view db) token)
unfolding get_download_token
get_download_token-replay {db} {after} run c token h e =
    rw e (find_token-row_of token after.download_tokens ∙ ap row_of (view-replay run h token))
