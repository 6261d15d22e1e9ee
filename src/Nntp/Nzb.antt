-- ===== src/Nntp/Nzb.antt =====
-- ol1n-vault/internal/nntp/nzb.go, and the message ids of client.go. The XML text of a document is
-- encoding/xml's; the element's name and the namespace are the same in every document.
pub mod Ids
use ol1n_super_app.Base.{
  ℕ, ◌≡◌, refl, Bool, true, false, Option, none, some, List, [], ◌∷◌, ◌++◌, ◌==◌, if◌then◌else◌,
  Bytes, codes, map, length,
}
use ol1n_super_app.Base.Ints.{ℤ, pos}
use ol1n_super_app.Go.Strings.{strip_prefix}
use ol1n_super_app.Go.Spaces.{trim_space}
use ol1n_super_app.Go.Numbers.{format_int}
use ol1n_super_app.Go.Hex.{hex_encode}

abbrev pub nzb_namespace : Bytes
nzb_namespace = codes "http://www.newzbin.com/DTD/2003/nzb"

abbrev pub nzb_doctype : Bytes
nzb_doctype =
    codes
      "<?xml version=\"1.0\" encoding=\"utf-8\"?>\n<!DOCTYPE nzb PUBLIC \"-//newzBin//DTD NZB 1.1//EN\" \"http://www.newzbin.com/DTD/nzb/nzb-1.1.dtd\">\n"

pub record NzbSegment : Type 0 where
  pub size : ℤ  -- the field Bytes
  pub number : ℤ
  pub msg_id : Bytes

pub record NzbFile : Type 0 where
  pub poster : Bytes
  pub date : ℕ
  pub subject : Bytes
  pub groups : List Bytes
  pub segments : List NzbSegment

pub record Nzb : Type 0 where
  pub xmlns : Bytes
  pub files : List NzbFile

-- What the package takes of encoding/xml: the indented text of a document, and its reading.
pub record Xml : Type 0 where
  pub encode : Nzb → Option Bytes
  pub decode : Bytes → Option Nzb

-- "[1/1] %s yEnc (1/%d)"
unfoldable pub nzb_subject : Bytes → ℤ → Bytes
nzb_subject filename total_parts =
    codes "[1/1] " ++ (filename ++ (codes " yEnc (1/" ++ (format_int total_parts ++ codes ")")))

unfoldable pub nzb_document : ℕ → Bytes → Bytes → Bytes → ℤ → List NzbSegment → Nzb
unfolding nzb_subject
nzb_document now filename newsgroup poster total_parts segments = record {
  xmlns = nzb_namespace;
  files =
      (record {
        poster = poster;
        date = now;
        subject = nzb_subject filename total_parts;
        groups = newsgroup ∷ [];
        segments = segments;
      })
      ∷ [];
}

abbrev framed : Option Bytes → Option Bytes
framed none = none
framed (some text) = some (nzb_doctype ++ (text ++ (b'\n' ∷ [])))

unfoldable pub build_nzb : Xml → ℕ → Bytes → Bytes → Bytes → ℤ → List NzbSegment → Option Bytes
unfolding nzb_document
build_nzb xml now filename newsgroup poster total_parts segments =
    framed (xml.encode (nzb_document now filename newsgroup poster total_parts segments))

-- `strings.TrimPrefix(s, "<")` and `strings.TrimSuffix(s, ">")`
abbrev pub trim_open : Bytes → Bytes
trim_open [] = []
trim_open (c ∷ cs) = if c == b'<' then cs else c ∷ cs

unfoldable pub trim_close : Bytes → Bytes
trim_close [] = []
trim_close (c ∷ []) = if c == b'>' then [] else c ∷ []
trim_close (c ∷ d ∷ cs) = c ∷ trim_close (d ∷ cs)

-- `SanitizeMessageID`, and the same three steps in `ParseNZB`.
unfoldable pub sanitize_message_id : Bytes → Bytes
unfolding trim_close
sanitize_message_id s = trim_close (trim_open (trim_space s))

abbrev pub clean_segment : NzbSegment → NzbSegment
clean_segment s = record s { msg_id = sanitize_message_id s.msg_id }

abbrev pub clean_file : NzbFile → NzbFile
clean_file f = record f { segments = map clean_segment f.segments }

abbrev cleaned : Option Nzb → Option Nzb
cleaned none = none
cleaned (some n) = some (record n { files = map clean_file n.files })

-- The reader is the file in memory, which ends and never fails.
unfoldable pub parse_nzb : Xml → Bytes → Option Nzb
unfolding sanitize_message_id
parse_nzb xml raw = cleaned (xml.decode raw)

-- Sixteen random bytes in, an id out.
unfoldable pub generate_message_id : Bytes → Bytes
generate_message_id random = hex_encode random ++ codes "@ol1n.vault"
