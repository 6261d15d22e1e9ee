-- ===== src/Handler/Upload/Complete.antt =====
-- What an upload that is accepted has stored.
use ol1n_super_app.Base.{
  if◌then◌else◌, zero, suc, ◌+◌, ap, subst, ◌<◌, ℕ, ◌≤◌, ◌≡◌, ◌≢◌, refl, ◌⊎◌, inl, inr, Bool, true,
  false, not, ◌||◌, Option, none, some, List, [], ◌∷◌, arith, ltb, Bytes, length, take, Bool-cases,
}
use ol1n_super_app.Db.Tables.{Db, Result, ok, err, Ctx, job_type_upload}
use ol1n_super_app.Db.Artifacts.{insert_artifact_pending}
use ol1n_super_app.Db.Jobs.{insert_job}
use ol1n_super_app.Handler.Upload.{
  max_upload_size, FormFile, Surroundings, Outcome, failure, discarded, job_stored, artifact_stored,
  invoiced, copied, with_file, init_upload,
}

-- The artifact and its job are stored, and the file holds all that was sent.
abbrev pub Accepted : Ctx → Ctx → Bytes → Bytes → Db → FormFile → Outcome → Type 0
Accepted c d job_id tmp_path db f o =
    (o.tmp ≡ some f.content)
    × ((filename : Bytes) × (content_type : Bytes) × (invoice : Bytes) × (between : Db)
        × (insert_artifact_pending c job_id filename content_type (length f.content) invoice db
            ≡ ok between)
        × (insert_job d job_id job_id job_type_upload tmp_path between ≡ ok o.db))

take-all {ℓ} : {A : Type ℓ} (n : ℕ) (xs : List A) → length (take n xs) < n → take n xs ≡ xs
take-all zero xs h = ground arith
take-all (suc n) [] h = refl
take-all (suc n) (x ∷ xs) h = ap (◌∷◌ x) (take-all n xs (omega (arith, h)))

-- Either the answer is an error and the temporary file is gone, unless its removal failed, or the upload
-- is stored.
abbrev pub Ends : Surroundings → Ctx → Ctx → Bytes → Bytes → Db → Outcome → Type 0
Ends s c d job_id tmp_path db o =
    ((o.status ≢ 200) × ((o.tmp ≡ none) ⊎ (s.removes ≡ false)))
    ⊎ ((o.status ≡ 200)
        × ((f : FormFile) × (s.form_file ≡ some f)
            × (length f.content ≤ max_upload_size)
            × Accepted c d job_id tmp_path db f o))

discarded-gone :
    (removes : Bool) (content : Bytes) (status : ℕ) (db : Db)
    → ((discarded removes content status db).tmp ≡ none) ⊎ (removes ≡ false)
discarded-gone true content status db = inl refl
discarded-gone false content status db = inr refl

module _ (s : Surroundings) (c d : Ctx) (job_id tmp_path : Bytes) (db : Db) (f : FormFile)
    (given : s.form_file ≡ some f) (small : length f.content ≤ max_upload_size) (content : Bytes)
    (full : content ≡ f.content) where
  job_stored-Ends :
      (filename content_type invoice : Bytes) (between : Db) (r : Result Db)
      → insert_artifact_pending c job_id filename content_type (length content) invoice db
        ≡ ok between
      → insert_job d job_id job_id job_type_upload tmp_path between ≡ r
      → Ends s c d job_id tmp_path db (job_stored s.removes content between r)
  unfolding job_stored
  job_stored-Ends filename content_type invoice between (err e) h i =
      inl (ground arith, discarded-gone s.removes content 500 between)
  job_stored-Ends filename content_type invoice between (ok db') h i =
      let h' =
        subst
          (λ xs.
            insert_artifact_pending c job_id filename content_type (length xs) invoice db
            ≡ ok between)
          full h in
      inr
        (refl, (f, given, small, (ap some full, (filename, content_type, invoice, between, h', i))))

  artifact_stored-Ends :
      (filename content_type invoice : Bytes) (r : Result Db)
      → insert_artifact_pending c job_id filename content_type (length content) invoice db ≡ r
      → Ends s c d job_id tmp_path db (artifact_stored s.removes d job_id tmp_path content db r)
  unfolding artifact_stored
  artifact_stored-Ends filename content_type invoice (err e) h =
      inl (ground arith, discarded-gone s.removes content 500 db)
  artifact_stored-Ends filename content_type invoice (ok between) h =
      job_stored-Ends filename content_type invoice between _ h refl

  invoiced-Ends :
      (filename content_type : Bytes) (o : Option Bytes)
      → Ends s c d job_id tmp_path db
          (invoiced s.removes c d job_id tmp_path filename content_type content db o)
  unfolding invoiced
  invoiced-Ends filename content_type none =
      inl (ground arith, discarded-gone s.removes content 502 db)
  invoiced-Ends filename content_type (some invoice) =
      artifact_stored-Ends filename content_type invoice _ refl

not_over : (b : Bool) (m n : ℕ) → b || ltb m n ≡ false → n ≤ m
not_over b m n h = ground arith

whole :
    (f : FormFile) (failed : Bool)
    → failed || ltb max_upload_size (length (copied f)) ≡ false
    → (copied f ≡ f.content) × (length f.content ≤ max_upload_size)
whole f failed h =
    let short : length (copied f) ≤ max_upload_size =
      not_over failed max_upload_size (length (copied f)) h in
    let full : copied f ≡ f.content =
      take-all (max_upload_size + 1) f.content (omega (arith, short)) in
    (full, subst (λ xs. length xs ≤ max_upload_size) full short)

with_file-Ends :
    (s : Surroundings) (c d : Ctx) (job_id tmp_path : Bytes) (db : Db) (o : Option FormFile)
    → s.form_file ≡ o
    → Ends s c d job_id tmp_path db (with_file s c d job_id tmp_path db o)
unfolding with_file
with_file-Ends s c d job_id tmp_path db none given = inl (ground arith, inl refl)
with_file-Ends s c d job_id tmp_path db (some f) given =
    elim (Bool-cases (ltb max_upload_size f.size)) [
      | inl e ↦ rw e (inl (ground arith, inl refl))
      | inr e ↦ elim (Bool-cases (not s.makes_dir || not s.creates)) [
        | inl e' ↦ rw (e, e') (inl (ground arith, inl refl))
        | inr e' ↦ elim (Bool-cases (not s.copies || ltb max_upload_size (length (copied f)))) [
          | inl e'' ↦
              rw (e, e', e'')
                (inl (
                  ground arith,
                  discarded-gone s.removes (if s.copies then copied f else s.partial) 500 db,
                ))
          | inr e'' ↦
              rw (e, e', e'')
                (let (full, small) = whole f (not s.copies) e'' in
                  invoiced-Ends s c d job_id tmp_path db f given small (copied f) full _ _ _)
        ]
      ]
    ]

-- An upload that is answered with an error leaves no temporary file, unless the removal of that file
-- fails. One that is answered 200 sent a file of at most 4 GiB, its temporary file holds all of it, and its artifact, with the length of
-- the file, and its job are stored.
pub init_upload_lem :
    (s : Surroundings) (c d : Ctx) (job_id tmp_path : Bytes) (db : Db)
    → Ends s c d job_id tmp_path db (init_upload s c d job_id tmp_path db)
unfolding init_upload
init_upload_lem s c d job_id tmp_path db = parsed s.parses
  where
    parsed :
        (b : Bool)
        → Ends s c d job_id tmp_path db
            (if not b then failure 400 db else with_file s c d job_id tmp_path db s.form_file)
    parsed true = with_file-Ends s c d job_id tmp_path db s.form_file refl
    parsed false = inl (ground arith, inl refl)
