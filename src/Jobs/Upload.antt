-- ===== src/Jobs/Upload.antt =====
-- upload_job.go: `Run`. The calls of other parts are data: what is read, whether the provider takes an
-- article, the random bytes of its id, the percentage, whose arithmetic is in floats, and the contexts.
pub mod Blocked
use ol1n_super_app.Base.{
  is_empty, ℕ, suc, ◌+◌, ◌≡◌, refl, Bool, true, false, Option, none, some, List, [], ◌∷◌, ◌++◌,
  if◌then◌else◌, Bytes, codes, length, not,
}
use ol1n_super_app.Base.Ints.{ℤ, pos}
use ol1n_super_app.Go.Crc.{checksum_ieee}
use ol1n_super_app.Go.Hex.{hex_encode}
use ol1n_super_app.Go.Numbers.{format_int}
use ol1n_super_app.Db.Tables.{Db, DbError, Result, ok, err, Ctx, after}
use ol1n_super_app.Db.Artifacts.{promote_artifact_to_ready}
use ol1n_super_app.Db.Jobs.{update_job_artifact_id}
use ol1n_super_app.Nntp.Yenc.Encode.{segment_size, yenc_encode_segment}
use ol1n_super_app.Nntp.Segments.{Segment, split_segments}
use ol1n_super_app.Nntp.Nzb.{NzbSegment, Xml, build_nzb, generate_message_id}
use ol1n_super_app.Jobs.Worker.{
  no_event, FilePath, Store, find_file, remove_file, write_file, progress, done,
}

pub record UploadJob : Type 0 where
  pub job_id : Bytes
  pub artifact_id : Bytes
  pub filename : Bytes
  pub tmp_path : FilePath
  pub nzb_dir : FilePath
  pub poster : Bytes
  pub newsgroup : Bytes

pub record UploadEnv : Type 0 where
  pub reads : Bool
  pub accepts : ℕ → Bytes → Bytes → Bool  -- the article of a round, by subject and body
  pub random : ℕ → Bytes
  pub percent : ℕ → ℕ → ℤ
  pub progress_ctx : ℕ → Ctx
  pub xml : Xml
  pub now : ℕ
  pub sha256 : Bytes → Bytes
  pub makes_dir : Bool
  pub writes : Bool
  pub promote_ctx : Ctx
  pub removes : Bool  -- whether the temporary file can be removed
  pub done_ctx : Ctx
  pub link_ctx : Ctx

pub data RunError : Type 0 where
  read_failed empty_file xml_failed dir_failed write_failed : RunError
  post_failed : ℕ → RunError
  promote_failed : DbError → RunError

pub data Posted : Type 0 where
  posted : List NzbSegment → Posted
  stopped : RunError → Posted

abbrev pub prepend_segment : NzbSegment → Posted → Posted
prepend_segment s (posted ss) = posted (s ∷ ss)
prepend_segment s (stopped e) = stopped e

-- "[1/1] %s yEnc (%d/%d)"
unfoldable pub subject : Bytes → ℕ → ℕ → Bytes
subject filename part total =
    codes "[1/1] "
    ++ (filename
        ++ (codes " yEnc ("
            ++ (format_int (pos part) ++ (codes "/" ++ (format_int (pos total) ++ codes ")")))))

-- Whether the article of a round was taken, and what the later rounds come to.
abbrev pub posted_round : Bool → ℕ → NzbSegment → Store → Store × Posted → Store × Posted
posted_round false number segment s rest = (s, stopped (post_failed number))
posted_round true number segment s rest = (rest.0, prepend_segment segment rest.1)

abbrev pub take_article : Bytes → Bytes → Store → Store
take_article id body s = record s { articles = s.articles ++ ((id, body) ∷ []) }

module _ (env : UploadEnv) (j : UploadJob) where
  -- A round of the loop: the body, the segment, and the store once the article is taken.
  abbrev pub part_body : ℕ → ℕ → ℕ → ℕ → Segment → Bytes
  part_body total size crc i seg =
      yenc_encode_segment j.filename (pos (i + 1)) (pos total) (pos size) (pos seg.offset) seg.part
        crc

  abbrev pub part_segment : ℕ → ℕ → ℕ → ℕ → Segment → NzbSegment
  part_segment total size crc i seg = record {
    size = pos (length (part_body total size crc i seg));
    number = pos (i + 1);
    msg_id = generate_message_id (env.random i);
  }

  abbrev pub after_part : ℕ → ℕ → ℕ → ℕ → Segment → Store → Store
  after_part total size crc i seg s =
      progress (env.progress_ctx i) j.job_id (env.percent (i + 1) total)
        (take_article (generate_message_id (env.random i)) (part_body total size crc i seg) s)

  -- The loop over the parts, from round `i` on.
  unfoldable pub post_parts : ℕ → ℕ → ℕ → ℕ → List Segment → Store → Store × Posted
  unfolding subject
  post_parts total size crc i [] s = (s, posted [])
  post_parts total size crc i (seg ∷ segs) s =
      posted_round
        (env.accepts i (subject j.filename (i + 1) total) (part_body total size crc i seg)) (i + 1)
        (part_segment total size crc i seg) s
        (post_parts total size crc (i + 1) segs (after_part total size crc i seg s))

  abbrev pub nzb_name : Bytes → Bytes
  nzb_name nzb = hex_encode (env.sha256 nzb) ++ codes ".nzb"

  -- Behind the promotion: the temporary file goes, the job is done and gets the artifact's new id.
  unfoldable pub promoted : Bytes → Store → Result Db → Store × Option RunError
  promoted hash s (err e) = (s, some (promote_failed e))
  promoted hash s (ok db) =
      let kept : Store = record s {
        db = db;
        files = if env.removes then remove_file j.tmp_path s.files else s.files;
      } in
      let s' : Store = done env.done_ctx j.job_id (record no_event { artifact_id = hash }) kept in
      (
        record s' { db = after s'.db (update_job_artifact_id env.link_ctx j.job_id hash s'.db) },
        none,
      )

  unfoldable pub with_nzb : Store → Option Bytes → Store × Option RunError
  unfolding promoted
  with_nzb s none = (s, some xml_failed)
  with_nzb s (some nzb) =
      let hash = hex_encode (env.sha256 nzb) in
      let s' : Store = record s {
        files = write_file (j.nzb_dir ++ (nzb_name nzb ∷ [])) nzb s.files;
      } in
      if not env.makes_dir
      then (s, some dir_failed)
      else if not env.writes
      then (s, some write_failed)
      else promoted hash s'
          (promote_artifact_to_ready env.promote_ctx j.artifact_id hash (nzb_name nzb) s'.db)

  unfoldable pub after_posting : ℕ → Store × Posted → Store × Option RunError
  unfolding with_nzb
  after_posting total (s, stopped e) = (s, some e)
  after_posting total (s, posted segments) =
      with_nzb s (build_nzb env.xml env.now j.filename j.newsgroup j.poster (pos total) segments)

  abbrev pub parts_of : Bytes → List Segment
  parts_of bytes = split_segments bytes (pos segment_size)

  abbrev pub post_all : Bytes → Store → Store × Posted
  post_all bytes s =
      post_parts (length (parts_of bytes)) (length bytes) (checksum_ieee bytes) 0 (parts_of bytes) s

  unfoldable pub run_data : Store → Option Bytes → Store × Option RunError
  unfolding after_posting post_parts
  run_data s none = (s, some read_failed)
  run_data s (some bytes) =
      if is_empty (parts_of bytes)
      then (s, some empty_file)
      else after_posting (length (parts_of bytes)) (post_all bytes s)

  unfoldable pub upload_run : Store → Store × Option RunError
  unfolding run_data after_posting with_nzb promoted post_parts
  upload_run s = run_data s (if env.reads then find_file j.tmp_path s.files else none)
