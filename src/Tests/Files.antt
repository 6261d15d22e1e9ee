-- ===== src/Tests/Files.antt =====
-- ol1n-vault/internal/handler: names, keys, uploads and downloads at concrete inputs.
use ol1n_super_app.Base.{
  same, ◌≤◌, ◌≡◌, ◌≢◌, refl, ◌⊎◌, true, false, none, some, [], ◌∷◌, codes, All,
}
use ol1n_super_app.Go.Strings.{strip_prefix, IsInline}
use ol1n_super_app.Db.Tables.{Artifact, DownloadToken, Db, fresh_db, Ctx, ok, status_ready}
use ol1n_super_app.Db.Artifacts.{get_artifact, find_artifact}
use ol1n_super_app.Db.Tokens.{find_token, get_download_token}
use ol1n_super_app.Handler.Filename.{
  contains, is_bad_filename, sanitize_filename, sanitize_filename_lem,
}
use ol1n_super_app.Handler.Gate.{gate, gate_lem, Extends, public_prefixes}
use ol1n_super_app.Handler.Upload.{Surroundings, FormFile, init_upload}
use ol1n_super_app.Handler.Upload.Complete.{Ends, init_upload_lem}
use ol1n_super_app.Handler.Download.{DownloadJob, request, file, serve_file}
use ol1n_super_app.Handler.Download.Access.{Granted, request_lem, serve_file_lem}

abbrev live : Ctx
live = record { now = 1700000000; refuses = false }

sanitize_filename_example :
    (is_bad_filename (sanitize_filename (codes "../ my cat.png ")) ≡ false)
    × All IsInline (sanitize_filename (codes "../ my cat.png "))
sanitize_filename_example = sanitize_filename_lem (codes "../ my cat.png ")

key_opens : gate (codes "k1") (codes "/download/a1") (codes "k1") ≡ true
unfolding gate same strip_prefix
key_opens = refl

gate_example :
    (codes "k1" ≡ []) ⊎ ((codes "k1" ≡ codes "k1") ⊎ Extends (codes "/download/a1") public_prefixes)
gate_example = gate_lem (codes "k1") (codes "/download/a1") (codes "k1") key_opens

abbrev pub cat : FormFile
cat = record { size = 3; filename = codes "cat.png"; content_type = []; content = 1 ∷ 2 ∷ 3 ∷ [] }

abbrev pub calm : Surroundings
calm = record {
  parses = true;
  form_file = some cat;
  makes_dir = true;
  creates = true;
  copies = true;
  partial = [];
  sniffed = codes "image/png";
  create_invoice = λ job_id description. some job_id;
  removes = false;
}

init_upload_example :
    Ends calm live live
      (codes "j1")
      (codes "/tmp/j1")
      fresh_db
      (init_upload calm live live (codes "j1") (codes "/tmp/j1") fresh_db)
init_upload_example = init_upload_lem calm live live (codes "j1") (codes "/tmp/j1") fresh_db

abbrev ready_artifact : Artifact
ready_artifact = record {
  id = codes "a1";
  filename = codes "cat.png";
  content_type = codes "image/png";
  size_bytes = 3;
  nzb_path = some (codes "a1.nzb");
  status = status_ready;
  payment_id = some (codes "p1");
  payment_status = none;
  tx_hash = none;
  created_at = 1;
  updated_at = 2;
}

abbrev token : DownloadToken
token = record {
  token = codes "t1";
  artifact_id = codes "a1";
  expires_at = 1700000000;
  created_at = 1;
}

abbrev ready_db : Db
ready_db = record fresh_db { artifacts = ready_artifact ∷ []; download_tokens = token ∷ [] }

request_example :
    ((request live live (codes "j2") (codes "a1") ready_db).submits ≡ none)
      × ((request live live (codes "j2") (codes "a1") ready_db).db ≡ ready_db)
      × ((request live live (codes "j2") (codes "a1") ready_db).status ≢ 200)
    ⊎ ((j : DownloadJob) × ((request live live (codes "j2") (codes "a1") ready_db).submits ≡ some j)
        × ((request live live (codes "j2") (codes "a1") ready_db).status ≡ 200)
        × Granted live live
            (codes "j2")
            (codes "a1")
            ready_db
            j
            (request live live (codes "j2") (codes "a1") ready_db).db)
request_example = request_lem live live (codes "j2") (codes "a1") ready_db

file_served :
    serve_file live 1700000000 live (codes "t1") (codes "cat.png") ready_db
    ≡ file (codes "a1") (codes "cat.png") (some (codes "image/png"))
unfolding serve_file get_download_token find_token get_artifact find_artifact same contains
file_served = refl

serve_file_example :
    (tok : DownloadToken) × (get_download_token live (codes "t1") ready_db ≡ ok tok)
    × (1700000000 ≤ tok.expires_at)
    × (codes "a1" ≡ tok.artifact_id)
    × (codes "cat.png" ≡ codes "cat.png")
    × (is_bad_filename (codes "cat.png") ≡ false)
serve_file_example =
    serve_file_lem live live 1700000000 (codes "t1") (codes "cat.png") ready_db (codes "a1")
      (codes "cat.png") (some (codes "image/png")) file_served
