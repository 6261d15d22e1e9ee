-- ===== src/Handler/Upload/Invoiced.antt =====
-- The invoice of an upload that was answered 200.
use ol1n_super_app.Base.{
  ℕ, ◌/◌, ◌≡◌, refl, sym, subst, Option, none, some, ◌++◌, arith, ◌==◌, Bytes, codes, length,
  Bool-cases, inl, inr,
}
use ol1n_super_app.Db.Tables.{Db, ok, Ctx, job_type_upload}
use ol1n_super_app.Db.Artifacts.{insert_artifact_pending}
use ol1n_super_app.Db.Jobs.{insert_job}
use ol1n_super_app.Payment.Invoice.{
  Client, InvoiceResponse, Service, posted, replied, create_invoice, id_of, invoice_id, decoded,
}
use ol1n_super_app.Handler.Filename.{sanitize_filename}
use ol1n_super_app.Handler.Upload.{FormFile, Surroundings, copied, init_upload}
use ol1n_super_app.Handler.Upload.Stored.{type_of, init_upload-Stores}

module _ {P : Type 0} (client : Client P) (service : Service P) where
  -- The provider answered with success, and with the invoice.
  abbrev pub Invoices : Bytes → Bytes → InvoiceResponse → Type 0
  Invoices job_id description out =
      (status : ℕ) × (raw : Bytes) × (service.exchange (posted client service job_id description)
        ≡ some (status, raw))
      × (status / 100 ≡ 2)
      × (service.unmarshal raw ≡ some out)

  decoded_made :
      (raw id : Bytes) (o : Option InvoiceResponse)
      → id_of client service (decoded raw o) ≡ some id
      → (out : InvoiceResponse) × (o ≡ some out) × (out.id ≡ id)
  decoded_made raw id none h = cc
  decoded_made raw id (some out) h = (out, refl, cc h)

  module _ (job_id description id : Bytes) where
    accepted :
        (status : ℕ) (raw : Bytes)
        → service.exchange (posted client service job_id description) ≡ some (status, raw)
        → id_of client service (replied client service (some (status, raw))) ≡ some id
        → (out : InvoiceResponse) × Invoices job_id description out × (out.id ≡ id)
    accepted status raw e h = elim (Bool-cases (status / 100 == 2)) [
      | inl two ↦
          let (out, reads, same_id) = decoded_made raw id (service.unmarshal raw) (rw two at h) in
          (out, (status, raw, e, ground (arith, two), reads), same_id)
      | inr other ↦ absurd (cc (rw other at h))
    ]

    replied-Invoices :
        (o : Option (ℕ × Bytes))
        → service.exchange (posted client service job_id description) ≡ o
        → id_of client service (replied client service o) ≡ some id
        → (out : InvoiceResponse) × Invoices job_id description out × (out.id ≡ id)
    replied-Invoices none e h = cc
    replied-Invoices (some (status, raw)) e h = accepted status raw e h

    invoice_id-Invoices :
        invoice_id client service job_id description ≡ some id
        → (out : InvoiceResponse) × Invoices job_id description out × (out.id ≡ id)
    unfolding create_invoice
    invoice_id-Invoices h =
        elim (Bool-cases (service.valid_url (client.api_base ++ codes "/invoice"))) [
          | inl e ↦
              replied-Invoices (service.exchange (posted client service job_id description)) refl
                (rw e at h)
          | inr e ↦ absurd (cc (rw e at h))
        ]

  -- When `InitUpload` answers 200 with the payment provider as its source of invoices, then the form had a
  -- file; the provider answered the POST of an invoice for this job and this file's sanitized name with a
  -- status from 200 to 299 and a body that reads as an invoice; and the artifact that was stored,
  -- with the job behind it, carries the id of that invoice.
  pub init_upload-Invoices :
      (s : Surroundings) (c d : Ctx) (job_id tmp_path : Bytes) (db : Db)
      → (init_upload
          (record s { create_invoice = invoice_id client service })
          c
          d
          job_id
          tmp_path
          db).status
        ≡ 200
      → (f : FormFile) × (out : InvoiceResponse) × (between : Db) × (s.form_file ≡ some f)
        × Invoices job_id (codes "Ol1n Vault upload: " ++ sanitize_filename f.filename) out
        × (insert_artifact_pending c job_id
              (sanitize_filename f.filename)
              (type_of s f)
              (length (copied f))
              out.id
              db
            ≡ ok between)
        × (insert_job d job_id job_id job_type_upload tmp_path between
            ≡ ok
                (init_upload
                  (record s { create_invoice = invoice_id client service })
                  c
                  d
                  job_id
                  tmp_path
                  db).db)
  init_upload-Invoices s c d job_id tmp_path db answered =
      let (f, invoice, between, given, asked, i, j) =
        init_upload-Stores (record s { create_invoice = invoice_id client service }) c d job_id
          tmp_path db answered in
      let (out, invoiced, same_id) =
        invoice_id-Invoices job_id (codes "Ol1n Vault upload: " ++ sanitize_filename f.filename)
          invoice asked in
      (
        f,
        out,
        between,
        given,
        invoiced,
        subst
            (λ id.
              insert_artifact_pending c job_id (sanitize_filename f.filename) (type_of s f)
                (length (copied f)) id db
              ≡ ok between)
            (sym same_id) i,
        j,
      )
