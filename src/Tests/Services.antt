-- ===== src/Tests/Services.antt =====
-- What the services of others are asked: the theorems at concrete inputs.
use ol1n_super_app.Base.{
  ℕ, ◌≡◌, refl, true, false, Option, none, some, List, [], ◌∷◌, ◌++◌, Bytes, codes, arith, length,
  same,
}
use ol1n_super_app.Db.Tables.{
  Db, fresh_db, Ctx, ok, has_artifact, has_job, jobs_refer, tokens_refer, job_type_upload,
}
use ol1n_super_app.Db.Artifacts.{insert_artifact_pending}
use ol1n_super_app.Db.Jobs.{insert_job}
use ol1n_super_app.Payment.Invoice.{InvoiceResponse, create_invoice, invoice_id}
use ol1n_super_app.Handler.Filename.{sanitize_filename}
use ol1n_super_app.Handler.Upload.{FormFile, copied, init_upload}
use ol1n_super_app.Handler.Upload.Stored.{type_of}
use ol1n_super_app.Handler.Upload.Invoiced.{Invoices, init_upload-Invoices}
use ol1n_super_app.Gateway.Http.{Writer}
use ol1n_super_app.Gateway.Sabnzbd.{Module, delete, proxied, handle}
use ol1n_super_app.Gateway.Sabnzbd.Routes.{read_url}
use ol1n_super_app.Gateway.Sabnzbd.Asked.{handle-asks}
use ol1n_super_app.Gateway.Chat.{Upstream, History, chat}
use ol1n_super_app.Gateway.Nim.{with_client, chat_stream}
use ol1n_super_app.Gateway.Http
use ol1n_super_app.Payment.Invoice
use ol1n_super_app.Gateway.Nim
use ol1n_super_app.Tests.Files.{calm, cat}

abbrev downloads : Module
downloads = record { base_url = codes "http://sab:8080"; api_key = codes "k-1" }

abbrev plain_writer : Writer
plain_writer = record { flushes = true; hijacks = false; headers = [] }

abbrev answers_ok : Option (Bytes × List (Bytes × Bytes)) → Option (ℕ × Bytes)
answers_ok q = some (200, codes "ok")

-- An id that holds a parameter of its own.
handle-asks_example :
    handle downloads (λ url. answers_ok (read_url url)) plain_writer (delete (codes "a&mode=pause"))
    ≡ proxied plain_writer (some (200, codes "ok"))
handle-asks_example =
    handle-asks downloads (refl, (refl, (refl, tt))) (ground arith) answers_ok plain_writer
      (delete (codes "a&mode=pause")) (ground arith)

abbrev live : Ctx
live = record { now = 1700000000; refuses = false }

abbrev payments : Invoice.Client ℕ
payments = record {
  api_key = codes "key";
  api_base = codes "https://pay";
  success_url = [];
  cancel_url = [];
  ipn_url = [];
  price_usd = 5;
}

abbrev provider : Invoice.Service ℕ
provider = record {
  marshal = λ q. some q.order_id;
  valid_url = λ url. true;
  exchange = λ q. some (201, q.body);
  unmarshal = λ raw. some (record { id = raw; invoice_url = []; status = [] });
}

answered :
    (init_upload
      (record calm { create_invoice = invoice_id payments provider })
      live
      live
      (codes "j1")
      (codes "/tmp/j1")
      fresh_db).status
    ≡ 200
unfolding init_upload create_invoice insert_artifact_pending insert_job has_artifact has_job
    jobs_refer same tokens_refer
answered = refl

init_upload-Invoices_example :
    (f : FormFile) × (out : InvoiceResponse) × (between : Db) × (some cat ≡ some f)
    × Invoices payments provider
        (codes "j1")
        (codes "Ol1n Vault upload: " ++ sanitize_filename f.filename)
        out
    × (insert_artifact_pending live
          (codes "j1")
          (sanitize_filename f.filename)
          (type_of calm f)
          (length (copied f))
          out.id
          fresh_db
        ≡ ok between)
    × (insert_job live (codes "j1") (codes "j1") job_type_upload (codes "/tmp/j1") between
        ≡ ok
            (init_upload
              (record calm { create_invoice = invoice_id payments provider })
              live
              live
              (codes "j1")
              (codes "/tmp/j1")
              fresh_db).db)
init_upload-Invoices_example =
    init_upload-Invoices payments provider calm live live (codes "j1") (codes "/tmp/j1") fresh_db
      answered

abbrev nim : Nim.Client
nim = record {
  base_url = codes "https://nim";
  api_key = codes "key";
  cf_client_id = [];
  cf_secret = [];
}

abbrev models_service : Nim.Service
models_service = record {
  valid_url = λ url. true;
  exchange = λ q. some (200, codes "hi");
  lines_of = λ raw. (codes "data: " ++ raw) ∷ [];
  marshal = λ model messages stream. some model;
  decode_ids = λ raw. some [];
  encode_names = λ names. some [];
  encode_conversation = λ id. id;
}

abbrev texts : Upstream
texts = record {
  decode_request = λ raw. some (record {
    model = codes "m";
    messages = (codes "user", raw) ∷ [];
    conversation_id = codes "c1";
  });
  decode_chunk = λ raw. some raw;
  encode_chunk = λ text. text;
  error_text = codes "\"error\"";
  chat_stream = λ model messages. none;
}

abbrev asking : Http.Request
asking = record {
  method = codes "POST";
  header = λ name. [];
  cookie = λ name. none;
  user = none;
  content = codes "hello";
}

abbrev no_history : History
no_history = record { conversations = []; messages = [] }

abbrev after_chat : Option History
after_chat =
    (chat (with_client nim models_service texts) (λ k. true) (some no_history) plain_writer
      asking).1

has_messages : Option History → ℕ
has_messages none = 0
has_messages (some h) = length h.messages
