-- ===== src/Db/Integrity.antt =====
-- The keys of the tables: what it is that the schema asks of them, as lists of texts.
pub mod Statements
pub mod Keys
pub mod Rows
pub mod Reachable
pub mod TokenMap
use ol1n_super_app.Base.{
  ap₂, ◌≡◌, ◌≢◌, refl, ap, sym, subst, ◌∙◌, Bool, true, false, not, ◌&&◌, ◌||◌, List, [], ◌∷◌, ◌++◌,
  Bytes, map, same, same_iff, arith, Bool-cases, inl, inr, if◌then◌else◌,
}
use ol1n_super_app.Db.Tables.{
  Artifact, Job, DownloadToken, Db, has_artifact, has_job, has_token, jobs_refer, tokens_refer,
  references_hold,
}

-- The ids of the artifacts, of the jobs and of the tokens, and what the jobs and the tokens refer to.
abbrev pub artifact_ids : List Artifact → List Bytes
artifact_ids as' = map (λ a. a.id) as'

abbrev pub job_ids : List Job → List Bytes
job_ids js = map (λ j. j.id) js

abbrev pub token_ids : List DownloadToken → List Bytes
token_ids ts = map (λ t. t.token) ts

abbrev pub job_targets : List Job → List Bytes
job_targets js = map (λ j. j.artifact_id) js

abbrev pub token_targets : List DownloadToken → List Bytes
token_targets ts = map (λ t. t.artifact_id) ts

unfoldable pub is_in : Bytes → List Bytes → Bool
unfolding same
is_in x [] = false
is_in x (y ∷ ys) = same y x || is_in x ys

unfoldable pub all_in : List Bytes → List Bytes → Bool
unfolding is_in
all_in [] ys = true
all_in (x ∷ xs) ys = is_in x ys && all_in xs ys

-- No text stands twice.
abbrev pub IsDistinct : List Bytes → Type 0
IsDistinct [] = Unit
IsDistinct (x ∷ xs) = (is_in x xs ≡ false) × IsDistinct xs

-- The primary keys are unique, and the references lead to artifacts.
pub record IsIntact (db : Db) : Type 0 where
  pub enforced : db.foreign_keys ≡ true
  pub artifacts_distinct : IsDistinct (artifact_ids db.artifacts)
  pub jobs_distinct : IsDistinct (job_ids db.jobs)
  pub tokens_distinct : IsDistinct (token_ids db.download_tokens)
  pub jobs_held : all_in (job_targets db.jobs) (artifact_ids db.artifacts) ≡ true
  pub tokens_held : all_in (token_targets db.download_tokens) (artifact_ids db.artifacts) ≡ true

pub has_artifact-is_in :
    (i : Bytes) (as' : List Artifact) → has_artifact i as' ≡ is_in i (artifact_ids as')
unfolding has_artifact is_in
has_artifact-is_in i [] = refl
has_artifact-is_in i (a ∷ as') = ap (λ b. same a.id i || b) (has_artifact-is_in i as')

pub has_job-is_in : (i : Bytes) (js : List Job) → has_job i js ≡ is_in i (job_ids js)
unfolding has_job is_in
has_job-is_in i [] = refl
has_job-is_in i (j ∷ js) = ap (λ b. same j.id i || b) (has_job-is_in i js)

pub has_token-is_in :
    (i : Bytes) (ts : List DownloadToken) → has_token i ts ≡ is_in i (token_ids ts)
unfolding has_token is_in
has_token-is_in i [] = refl
has_token-is_in i (t ∷ ts) = ap (λ b. same t.token i || b) (has_token-is_in i ts)

pub jobs_refer-all_in :
    (as' : List Artifact) (js : List Job)
    → jobs_refer as' js ≡ all_in (job_targets js) (artifact_ids as')
unfolding jobs_refer all_in
jobs_refer-all_in as' [] = refl
jobs_refer-all_in as' (j ∷ js) =
    ap₂ ◌&&◌ (has_artifact-is_in j.artifact_id as') (jobs_refer-all_in as' js)

pub tokens_refer-all_in :
    (as' : List Artifact) (ts : List DownloadToken)
    → tokens_refer as' ts ≡ all_in (token_targets ts) (artifact_ids as')
unfolding tokens_refer all_in
tokens_refer-all_in as' [] = refl
tokens_refer-all_in as' (t ∷ ts) =
    ap₂ ◌&&◌ (has_artifact-is_in t.artifact_id as') (tokens_refer-all_in as' ts)

is_in-snoc : (x y : Bytes) (xs : List Bytes) → is_in x (xs ++ (y ∷ [])) ≡ is_in x xs || same y x
unfolding is_in
is_in-snoc x y [] = ground arith
is_in-snoc x y (z ∷ xs) = ground (arith, is_in-snoc x y xs)

pub same_comm : (a b : Bytes) → same a b ≡ same b a
same_comm a b = elim (Bool-cases (same a b)) [
  | inl e ↦ e ∙ sym ((same_iff b a).1 (sym ((same_iff a b).0 e)))
  | inr e ↦ elim (Bool-cases (same b a)) [
    | inl e' ↦ absurd (cc ((same_iff a b).1 (sym ((same_iff b a).0 e')), e))
    | inr e' ↦ e ∙ sym e'
  ]
]

pub snoc-IsDistinct :
    (y : Bytes) (xs : List Bytes) → is_in y xs ≡ false → IsDistinct xs → IsDistinct (xs ++ (y ∷ []))
unfolding is_in
snoc-IsDistinct y [] new h = (refl, tt)
snoc-IsDistinct y (x ∷ xs) new (hx, h) =
    (ground (arith, is_in-snoc x y xs, same_comm x y), snoc-IsDistinct y xs (ground arith) h)

-- More artifacts hold as many references.
pub all_in-snoc :
    (y : Bytes) (xs ys : List Bytes) → all_in xs ys ≡ true → all_in xs (ys ++ (y ∷ [])) ≡ true
unfolding all_in
all_in-snoc y [] ys h = refl
all_in-snoc y (x ∷ xs) ys h = ground (arith, is_in-snoc x y ys, all_in-snoc y xs ys)
