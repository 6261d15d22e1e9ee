-- ===== src/Handler/Upload/Stored.antt =====
-- The two rows of an upload that was answered 200.
use ol1n_super_app.Base.{
  ◌≡◌, refl, not, ◌||◌, Option, none, some, ◌++◌, arith, ltb, if◌then◌else◌, Bytes, codes, length,
  Bool-cases, inl, inr,
}
use ol1n_super_app.Go.Strings.{is_nil}
use ol1n_super_app.Db.Tables.{Db, Result, ok, err, Ctx, job_type_upload}
use ol1n_super_app.Db.Artifacts.{insert_artifact_pending}
use ol1n_super_app.Db.Jobs.{insert_job}
use ol1n_super_app.Handler.Filename.{sanitize_filename}
use ol1n_super_app.Handler.Upload.{
  max_upload_size, FormFile, Surroundings, job_stored, artifact_stored, invoiced, copied, with_file,
  init_upload,
}

abbrev pub type_of : Surroundings → FormFile → Bytes
type_of s f = if is_nil f.content_type then s.sniffed else f.content_type

-- The file's two rows went in, under the id of the invoice that was made for it.
abbrev pub Stores : Surroundings → Ctx → Ctx → Bytes → Bytes → Db → Db → Type 0
Stores s c d job_id tmp_path db db' =
    (f : FormFile) × (invoice : Bytes) × (between : Db) × (s.form_file ≡ some f)
    × (s.create_invoice job_id (codes "Ol1n Vault upload: " ++ sanitize_filename f.filename)
        ≡ some invoice)
    × (insert_artifact_pending c job_id (sanitize_filename f.filename) (type_of s f)
          (length (copied f)) invoice db
        ≡ ok between)
    × (insert_job d job_id job_id job_type_upload tmp_path between ≡ ok db')

module _ (s : Surroundings) (c d : Ctx) (job_id tmp_path : Bytes) (db : Db) (f : FormFile)
    (given : s.form_file ≡ some f) where
  abbrev name : Bytes
  name = sanitize_filename f.filename

  job_stored-Stores :
      (content invoice : Bytes) (between : Db) (r : Result Db)
      → s.create_invoice job_id (codes "Ol1n Vault upload: " ++ name) ≡ some invoice
      → insert_artifact_pending c job_id name (type_of s f) (length (copied f)) invoice db
        ≡ ok between
      → insert_job d job_id job_id job_type_upload tmp_path between ≡ r
      → (job_stored s.removes content between r).status ≡ 200
      → Stores s c d job_id tmp_path db (job_stored s.removes content between r).db
  unfolding job_stored
  job_stored-Stores content invoice between (err e) i a j h = absurd (omega (arith, h))
  job_stored-Stores content invoice between (ok db') i a j h = (f, invoice, between, given, i, a, j)

  artifact_stored-Stores :
      (content invoice : Bytes) (r : Result Db)
      → s.create_invoice job_id (codes "Ol1n Vault upload: " ++ name) ≡ some invoice
      → insert_artifact_pending c job_id name (type_of s f) (length (copied f)) invoice db ≡ r
      → (artifact_stored s.removes d job_id tmp_path content db r).status ≡ 200
      → Stores s c d job_id tmp_path db
          (artifact_stored s.removes d job_id tmp_path content db r).db
  unfolding artifact_stored
  artifact_stored-Stores content invoice (err e) i a h = absurd (omega (arith, h))
  artifact_stored-Stores content invoice (ok between) i a h =
      job_stored-Stores content invoice between _ i a refl h

  invoiced-Stores :
      (o : Option Bytes)
      → s.create_invoice job_id (codes "Ol1n Vault upload: " ++ name) ≡ o
      → (invoiced s.removes c d job_id tmp_path name (type_of s f) (copied f) db o).status ≡ 200
      → Stores s c d job_id tmp_path db
          (invoiced s.removes c d job_id tmp_path name (type_of s f) (copied f) db o).db
  unfolding invoiced
  invoiced-Stores none i h = absurd (omega (arith, h))
  invoiced-Stores (some invoice) i h = artifact_stored-Stores (copied f) invoice _ i refl h

with_file-Stores :
    (s : Surroundings) (c d : Ctx) (job_id tmp_path : Bytes) (db : Db) (o : Option FormFile)
    → s.form_file ≡ o
    → (with_file s c d job_id tmp_path db o).status ≡ 200
    → Stores s c d job_id tmp_path db (with_file s c d job_id tmp_path db o).db
unfolding with_file
with_file-Stores s c d job_id tmp_path db none given h = absurd (omega (arith, h))
with_file-Stores s c d job_id tmp_path db (some f) given h =
    elim (Bool-cases (ltb max_upload_size f.size)) [
      | inl e ↦ absurd (omega (arith, rw e at h))
      | inr e ↦ elim (Bool-cases (not s.makes_dir || not s.creates)) [
        | inl e' ↦ absurd (omega (arith, rw (e, e') at h))
        | inr e' ↦ elim (Bool-cases (not s.copies || ltb max_upload_size (length (copied f)))) [
          | inl e'' ↦ absurd (omega (arith, rw (e, e', e'') at h))
          | inr e'' ↦
              rw (e, e', e'')
                (invoiced-Stores s c d job_id tmp_path db f given _ refl (rw (e, e', e'') at h))
        ]
      ]
    ]

pub init_upload-Stores :
    (s : Surroundings) (c d : Ctx) (job_id tmp_path : Bytes) (db : Db)
    → (init_upload s c d job_id tmp_path db).status ≡ 200
    → Stores s c d job_id tmp_path db (init_upload s c d job_id tmp_path db).db
unfolding init_upload
init_upload-Stores s c d job_id tmp_path db h = elim (Bool-cases s.parses) [
  | inl e ↦ rw e (with_file-Stores s c d job_id tmp_path db s.form_file refl (rw e at h))
  | inr e ↦ absurd (omega (arith, rw e at h))
]
