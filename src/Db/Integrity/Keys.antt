-- ===== src/Db/Integrity/Keys.antt =====
-- The lists of keys that a renaming and a deletion leave.
use ol1n_super_app.Base.{
  ap₂, ◌≡◌, refl, ap, sym, subst, ◌∙◌, Bool, true, false, not, ◌&&◌, List, [], ◌∷◌, Bytes, map,
  same, same_iff, arith, Bool-cases, inl, inr, if◌then◌else◌,
}
use ol1n_super_app.Db.Tables.{Artifact, DownloadToken}
use ol1n_super_app.Db.Artifacts.{update_artifacts}
use ol1n_super_app.Db.Tokens.{delete_tokens}
use ol1n_super_app.Db.Integrity.{
  artifact_ids, token_ids, token_targets, is_in, all_in, IsDistinct, same_comm,
}

abbrev pub renamed : Bytes → Bytes → List Bytes → List Bytes
renamed old new xs = map (λ x. if same x old then new else x) xs

pub renamed-absent :
    (old new : Bytes) (xs : List Bytes) → is_in old xs ≡ false → renamed old new xs ≡ xs
unfolding is_in
renamed-absent old new [] h = refl
renamed-absent old new (x ∷ xs) h = ground (arith, renamed-absent old new xs)

pub renamed-same :
    (old new : Bytes) (xs : List Bytes) → same new old ≡ true → renamed old new xs ≡ xs
renamed-same old new [] h = refl
renamed-same old new (x ∷ xs) h = elim (Bool-cases (same x old)) [
  | inl e ↦
      rw e
        (ap₂ ◌∷◌ ((same_iff new old).0 h ∙ sym ((same_iff x old).0 e)) (renamed-same old new xs h))
  | inr e ↦ rw e (ap (◌∷◌ x) (renamed-same old new xs h))
]

pub is_in-renamed :
    (x old new : Bytes) (xs : List Bytes)
    → is_in x xs ≡ false
    → same new x ≡ false
    → is_in x (renamed old new xs) ≡ false
unfolding is_in
is_in-renamed x old new [] h k = refl
is_in-renamed x old new (y ∷ xs) h k = ground (arith, is_in-renamed x old new xs)

pub renamed-IsDistinct :
    (old new : Bytes) (xs : List Bytes)
    → is_in new xs ≡ false
    → IsDistinct xs
    → IsDistinct (renamed old new xs)
unfolding is_in
renamed-IsDistinct old new [] free h = tt
renamed-IsDistinct old new (x ∷ xs) free (hx, h) = elim (Bool-cases (same x old)) [
  | inl e ↦
      rw (e, renamed-absent old new xs (subst (λ z. is_in z xs ≡ false) ((same_iff x old).0 e) hx))
        (ground arith, h)
  | inr e ↦ rw e (
    is_in-renamed x old new xs hx (same_comm new x ∙ ground arith),
    renamed-IsDistinct old new xs (ground arith) h,
  )
]

-- The primary key of the table allows the new name.
pub may_rename-IsDistinct :
    (old new : Bytes) (xs : List Bytes)
    → is_in old xs && not (same new old) && is_in new xs ≡ false
    → IsDistinct xs
    → IsDistinct (renamed old new xs)
may_rename-IsDistinct old new xs may h = elim (Bool-cases (is_in old xs)) [
  | inr e ↦ rw (renamed-absent old new xs e) h
  | inl e ↦ elim (Bool-cases (same new old)) [
    | inl e' ↦ rw (renamed-same old new xs e') h
    | inr e' ↦ renamed-IsDistinct old new xs (rw (e, e') at may) h
  ]
]

-- What a DELETE leaves.
pub is_in-delete_tokens :
    (x : Bytes) (test : DownloadToken → Bool) (ts : List DownloadToken)
    → is_in x (token_ids ts) ≡ false
    → is_in x (token_ids (delete_tokens test ts)) ≡ false
unfolding is_in delete_tokens
is_in-delete_tokens x test [] h = refl
is_in-delete_tokens x test (t ∷ ts) h = ground (arith, is_in-delete_tokens x test ts)

pub delete_tokens-IsDistinct :
    (test : DownloadToken → Bool) (ts : List DownloadToken)
    → IsDistinct (token_ids ts)
    → IsDistinct (token_ids (delete_tokens test ts))
unfolding delete_tokens
delete_tokens-IsDistinct test [] h = tt
delete_tokens-IsDistinct test (t ∷ ts) (ht, h) = elim (Bool-cases (test t)) [
  | inl e ↦ rw e (delete_tokens-IsDistinct test ts h)
  | inr e ↦ rw e (is_in-delete_tokens t.token test ts ht, delete_tokens-IsDistinct test ts h)
]

pub all_in-delete_tokens :
    (ids : List Bytes) (test : DownloadToken → Bool) (ts : List DownloadToken)
    → all_in (token_targets ts) ids ≡ true
    → all_in (token_targets (delete_tokens test ts)) ids ≡ true
unfolding all_in delete_tokens
all_in-delete_tokens ids test [] h = refl
all_in-delete_tokens ids test (t ∷ ts) h = ground (arith, all_in-delete_tokens ids test ts)

pub ids-renamed :
    (old new : Bytes) (change : Artifact → Artifact) (as' : List Artifact)
    → ((a : Artifact) → (change a).id ≡ new)
    → artifact_ids (update_artifacts (λ a. same a.id old) change as')
      ≡ renamed old new (artifact_ids as')
unfolding update_artifacts
ids-renamed old new change [] k = refl
ids-renamed old new change (a ∷ as') k = ground (arith, k a, ids-renamed old new change as' k)
