-- ===== src/Tests/Jobs.antt =====
-- ol1n-vault/internal/jobs: the theorems at concrete inputs.
use ol1n_super_app.Base.{
  none, ◌≡◌, refl, true, false, some, List, [], ◌∷◌, ◌++◌, Bytes, codes, arith, same,
}
use ol1n_super_app.Base.Ints.{pos}
use ol1n_super_app.Go.Crc.{checksum_ieee}
use ol1n_super_app.Go.Hex.{hex_encode}
use ol1n_super_app.Go.Textproto.{begin_line, dot_write}
use ol1n_super_app.Db.Tables.{status_ready, Artifact, fresh_db, job_failed, has_artifact}
use ol1n_super_app.Nntp.Segments.{split_segments}
use ol1n_super_app.Nntp.Nzb.{Xml, NzbSegment, build_nzb, nzb_document, nzb_doctype}
use ol1n_super_app.Handler.Download.{DownloadJob}
use ol1n_super_app.Jobs.Worker.{Event, no_event, Store, submit, progress}
use ol1n_super_app.Jobs.Upload.{
  UploadEnv, UploadJob, RunError, posted, part_segment, part_body, post_parts, post_all, upload_run,
}
use ol1n_super_app.Jobs.Upload.Blocked.{IsReported, submit-never_ready}
use ol1n_super_app.Jobs.Download.{DownloadEnv, fetched, fetch_file}
use ol1n_super_app.Jobs.RoundTrip.Whole.{fetch_file-post_all}
use ol1n_super_app.Tests.Db.{paid_artifact, live, paid_db, job_is_there}

abbrev payload : Bytes
payload = 65 ∷ 0 ∷ 61 ∷ []

abbrev store : Store
store = record { db = fresh_db; events = []; files = []; articles = [] }

abbrev job : UploadJob
job = record {
  job_id = codes "j1";
  artifact_id = codes "a1";
  filename = codes "cat.png";
  tmp_path = codes "tmp" ∷ codes "j1" ∷ [];
  nzb_dir = codes "nzb" ∷ [];
  poster = codes "me";
  newsgroup = codes "alt.binaries.test";
}

abbrev wanted : DownloadJob
wanted = record {
  job_id = codes "j2";
  artifact_id = codes "h1";
  filename = codes "cat.png";
  content_type = codes "image/png";
  nzb_path = codes "h1.nzb";
}

-- The document of the one upload, to and from a text that stands for it.
abbrev xml_of : List NzbSegment → Xml
xml_of segments = record {
  encode = λ n. some (codes "<nzb/>");
  decode =
      λ text. some (nzb_document 1700000000 job.filename job.newsgroup job.poster (pos 1) segments);
}

abbrev env_of : List NzbSegment → UploadEnv
env_of segments = record {
  reads = true;
  accepts = λ k subject body. true;
  random = λ k. 7 ∷ 8 ∷ [];
  percent = λ done total. pos 95;
  progress_ctx = λ k. live;
  xml = xml_of segments;
  now = 1700000000;
  sha256 = λ bytes. 9 ∷ [];
  makes_dir = true;
  writes = true;
  promote_ctx = live;
  done_ctx = live;
  removes = true;
  link_ctx = live;
}

abbrev its_segments : List NzbSegment
its_segments =
    part_segment (env_of []) job 1 3 (checksum_ieee payload) 0
      (record { part = payload; offset = 1 })
    ∷ []

abbrev env : UploadEnv
env = env_of its_segments

abbrev denv : DownloadEnv
denv = record {
  reads = true;
  xml = xml_of its_segments;
  answer = λ k id. some (
      dot_write begin_line
        (part_body env job 1 3 (checksum_ieee payload) 0 (record { part = payload; offset = 1 })));
  percent = λ done total. pos 95;
  progress_ctx = λ k. live;
  nzb_path = codes "nzb" ∷ codes "h1.nzb" ∷ [];
  files_dir = codes "files" ∷ [];
  makes_dir = true;
  writes = true;
  new_token = some (1 ∷ 2 ∷ []);
  token_ctx = live;
  token_ttl = 86400;
  public_base = codes "https://super.ol1n.com/";
  done_ctx = live;
}

is_posted : (post_all env job payload store).1 ≡ posted its_segments
unfolding post_parts split_segments
is_posted = refl

fetch_file-post_all_example :
    (fetch_file denv wanted (some (nzb_doctype ++ (codes "<nzb/>" ++ codes "\n"))) store).1
    ≡ fetched payload
unfolding post_parts split_segments build_nzb progress
fetch_file-post_all_example =
    fetch_file-post_all env denv job wanted payload (nzb_doctype ++ (codes "<nzb/>" ++ codes "\n"))
      store store its_segments (omega arith) (omega arith) (omega arith) (λ k. omega arith)
      is_posted ((λ k. refl), tt) refl refl

free_hash : (nzb : Bytes) → has_artifact (hex_encode (env.sha256 nzb)) paid_db.artifacts ≡ false
unfolding has_artifact same hex_encode
free_hash nzb = refl

submit-never_ready_example :
    (e : RunError) × (before : List (Bytes × Event)) × ((submit live live
        (codes "j1")
        (λ e. codes "promote")
        (upload_run env job)
        (record store { db = paid_db })).db.artifacts
      ≡ paid_db.artifacts)
    × ((submit live live
          (codes "j1")
          (λ e. codes "promote")
          (upload_run env job)
          (record store { db = paid_db })).events
        ≡ before
          ++ ((codes "j1", record no_event { status = job_failed; error = codes "promote" }) ∷ []))
    × IsReported live
        (codes "j1")
        (codes "promote")
        paid_db
        (submit live live
          (codes "j1")
          (λ e. codes "promote")
          (upload_run env job)
          (record store { db = paid_db })).db
submit-never_ready_example =
    submit-never_ready live live env job (λ e. codes "promote") (record store { db = paid_db }) refl
      job_is_there free_hash

-- A download of one byte.
abbrev its_nzb : Xml
its_nzb = record {
  encode = λ n. none;
  decode = λ text. some (
      nzb_document 1700000000 (codes "a") (codes "g") (codes "me") (pos 1)
        (record { size = pos 50; number = pos 1; msg_id = codes "m1" } ∷ []));
}

abbrev small_env : DownloadEnv
small_env = record denv {
  xml = its_nzb;
  answer = λ k id. some (codes "=ybegin line=128 size=1 name=a\r\nk\r\n=yend size=1\r\n.\r\n");
}

abbrev stored_artifact : Artifact
stored_artifact = record paid_artifact { id = codes "h1"; status = status_ready }

abbrev full_store : Store
full_store = record store {
  db = record fresh_db { artifacts = stored_artifact ∷ [] };
  files = (denv.nzb_path, nzb_doctype) ∷ [];
}
