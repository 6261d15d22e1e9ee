-- ===== src/Jobs/Download.antt =====
-- download_job.go: `Run`. `answer` is what the provider sends behind the code 222 for an id in a round;
-- the percentage, the contexts, the random token and what fails on disk are data as well.
pub mod Served
use ol1n_super_app.Base.{
  leb, ℕ, ◌+◌, Bool, true, false, Option, none, some, List, [], ◌∷◌, ◌++◌, if◌then◌else◌, Bytes,
  codes, length, not, is_empty,
}
use ol1n_super_app.Base.Ints.{ℤ, pos, negsuc}
use ol1n_super_app.Go.Hex.{hex_encode}
use ol1n_super_app.Go.Textproto.{line_start, dot_read}
use ol1n_super_app.Db.Tables.{Db, DbError, Result, ok, err, Ctx}
use ol1n_super_app.Db.Tokens.{insert_download_token}
use ol1n_super_app.Nntp.Yenc.Decode.{Decoded, begin_not_found, pcrc32_mismatch, yenc_decode}
use ol1n_super_app.Nntp.Nzb.{Nzb, NzbFile, NzbSegment, Xml, parse_nzb}
use ol1n_super_app.Handler.Download.{DownloadJob}
use ol1n_super_app.Handler.Filename.{trim_slashes}
use ol1n_super_app.Jobs.Worker.{no_event, FilePath, Store, find_file, write_file, progress, done}

pub record DownloadEnv : Type 0 where
  pub reads : Bool
  pub xml : Xml
  pub answer : ℕ → Bytes → Option Bytes
  pub percent : ℕ → ℕ → ℤ
  pub progress_ctx : ℕ → Ctx
  pub nzb_path : FilePath
  pub files_dir : FilePath
  pub makes_dir : Bool
  pub writes : Bool
  pub new_token : Option Bytes  -- 32 random bytes
  pub token_ctx : Ctx
  pub token_ttl : ℕ
  pub public_base : Bytes
  pub done_ctx : Ctx

pub data RunError : Type 0 where
  read_failed nzb_invalid no_segments dir_failed write_failed no_token : RunError
  fetch_failed decode_failed : ℤ → RunError
  token_failed : DbError → RunError

abbrev pub leb_ℤ : ℤ → ℤ → Bool
leb_ℤ (pos a) (pos b) = leb a b
leb_ℤ (pos a) (negsuc b) = false
leb_ℤ (negsuc a) (pos b) = true
leb_ℤ (negsuc a) (negsuc b) = leb b a

-- `sort.Slice` by `Number`; the order of segments with the same number is not determined.
unfoldable pub insert_segment : NzbSegment → List NzbSegment → List NzbSegment
insert_segment x [] = x ∷ []
insert_segment x (y ∷ ys) =
    let later = y ∷ insert_segment x ys in if leb_ℤ x.number y.number then x ∷ y ∷ ys else later

unfoldable pub sort_segments : List NzbSegment → List NzbSegment
unfolding insert_segment
sort_segments [] = []
sort_segments (x ∷ xs) = insert_segment x (sort_segments xs)

-- `FetchBody`
unfoldable pub fetch_body : Option Bytes → Option Bytes
unfolding dot_read
fetch_body none = none
fetch_body (some wire) = dot_read line_start wire

-- The data of a segment; an error of the decoder ends the job.
pub data Part : Type 0 where
  part : Bytes → Part
  unfetched undecoded : Part

abbrev decoded_part : Decoded → Part
decoded_part (Decoded.ok out) = part out.content
decoded_part begin_not_found = undecoded
decoded_part (pcrc32_mismatch out) = undecoded

unfoldable pub read_part : Option Bytes → Part
read_part none = unfetched
read_part (some text) = decoded_part (yenc_decode text)

pub data Fetched : Type 0 where
  fetched : Bytes → Fetched
  stopped : RunError → Fetched

abbrev pub prepend_part : Bytes → Fetched → Fetched
prepend_part bytes (fetched rest) = fetched (bytes ++ rest)
prepend_part bytes (stopped e) = stopped e

abbrev pub next_part : ℤ → Store → Part → Store × Fetched → Store × Fetched
next_part number s unfetched rest = (s, stopped (fetch_failed number))
next_part number s undecoded rest = (s, stopped (decode_failed number))
next_part number s (part bytes) rest = (rest.0, prepend_part bytes rest.1)

-- `newToken`
abbrev pub token_of : Option Bytes → Option Bytes
token_of none = none
token_of (some random) = some (hex_encode random)

-- `parsed.Files[0].Segments.Segment`, where there is one.
abbrev pub first_segments : List NzbFile → List NzbSegment
first_segments [] = []
first_segments (f ∷ fs) = f.segments

module _ (env : DownloadEnv) (j : DownloadJob) where
  -- The loop over the segments, from round `idx` on.
  unfoldable pub fetch_parts : ℕ → ℕ → List NzbSegment → Store → Store × Fetched
  unfolding read_part fetch_body
  fetch_parts total idx [] s = (s, fetched [])
  fetch_parts total idx (seg ∷ segs) s =
      let rest =
        fetch_parts total (idx + 1) segs
          (progress (env.progress_ctx idx) j.job_id (env.percent (idx + 1) total) s) in
      next_part seg.number s (read_part (fetch_body (env.answer idx seg.msg_id))) rest

  fetch_all : List NzbSegment → Store → Store × Fetched
  fetch_all segments s =
      if is_empty segments
      then (s, stopped no_segments)
      else fetch_parts (length segments) 0 (sort_segments segments) s

  fetch_nzb : Option Nzb → Store → Store × Fetched
  fetch_nzb none s = (s, stopped nzb_invalid)
  fetch_nzb (some n) s = fetch_all (first_segments n.files) s

  -- From the NZB file to the body.
  unfoldable pub fetch_file : Option Bytes → Store → Store × Fetched
  unfolding fetch_nzb fetch_all fetch_parts sort_segments
  fetch_file none s = (s, stopped read_failed)
  fetch_file (some raw) s = fetch_nzb (parse_nzb env.xml raw) s

  abbrev pub download_url : Bytes → Bytes
  download_url token =
      trim_slashes env.public_base ++ (codes "/files/" ++ (token ++ (b'/' ∷ j.filename)))

  unfoldable pub with_token : Store → Bytes → Result Db → Store × Option RunError
  with_token s token (err e) = (s, some (token_failed e))
  with_token s token (ok db) = (
    done env.done_ctx j.job_id
        (record no_event {
          artifact_id = j.artifact_id;
          download_url = download_url token;
          content_type = j.content_type;
        })
        (record s { db = db }),
    none,
  )

  unfoldable pub with_file : Store → Option Bytes → Store × Option RunError
  unfolding with_token
  with_file s none = (s, some no_token)
  with_file s (some token) =
      with_token s token
        (insert_download_token env.token_ctx token j.artifact_id env.token_ttl s.db)

  abbrev pub out_path : FilePath
  out_path = env.files_dir ++ (j.artifact_id ∷ j.filename ∷ [])

  unfoldable pub after_fetching : Store × Fetched → Store × Option RunError
  unfolding with_file
  after_fetching (s, stopped e) = (s, some e)
  after_fetching (s, fetched body) =
      if not env.makes_dir
      then (s, some dir_failed)
      else if not env.writes
      then (s, some write_failed)
      else with_file (record s { files = write_file out_path body s.files })
          (token_of env.new_token)

  unfoldable pub download_run : Store → Store × Option RunError
  unfolding after_fetching with_file with_token fetch_file trim_slashes
  download_run s =
      after_fetching (fetch_file (if env.reads then find_file env.nzb_path s.files else none) s)
