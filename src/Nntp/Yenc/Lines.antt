-- ===== src/Nntp/Yenc/Lines.antt =====
-- The encoder's lines as the decoder's lemmas want them.
use ol1n_super_app.Base.{
  ℕ, ◌^◌, ◌≤◌, ◌<◌, ◌≡◌, ◌⊎◌, ◌∙◌, true, false, not, ◌&&◌, inl, inr, [], ◌∷◌, ◌++◌, arith, lt→ltb,
  ◌==◌, if◌then◌else◌, Bytes, codes, length, All, All-append, All-map, Bool-cases, append_assoc,
}
use ol1n_super_app.Base.Ints.{ℤ, pos, ◌+ℤ◌, ◌-ℤ◌, int64}
use ol1n_super_app.Go.Strings.{IsInline, read_lines}
use ol1n_super_app.Go.Numbers.{format_nat-IsDigit, format_nat, format_int, format_hex8}
use ol1n_super_app.Go.Numbers.RoundTrip.{parse_uint-format_hex8}
use ol1n_super_app.Go.Crc.{checksum_ieee}
use ol1n_super_app.Nntp.Yenc.Encode.{yenc_line_len, encode_data, begin_lines, end_line}
use ol1n_super_app.Nntp.Yenc.Decode.{
  DecodedPart, Decoder, empty_part, parse_end, decode_lines, finish, ok,
}
use ol1n_super_app.Nntp.Yenc.Pieces.{add, decode_lines-encode_data}
use ol1n_super_app.Nntp.Yenc.Keywords.{decode_lines_end}
use ol1n_super_app.Nntp.Yenc.Headers.{
  IsToken, IsDigit-IsToken, begin_fields, single_fields, part_fields, end_fields, parse_end_part,
  parse_end_last,
}

pub format_int-IsToken : (n : ℕ) → IsToken (format_int (pos n))
unfolding format_int
format_int-IsToken n = IsDigit-IsToken (format_nat n) (format_nat-IsDigit n)

pub format_hex8-IsToken : (n : ℕ) → IsToken (format_hex8 n)
unfolding format_hex8
format_hex8-IsToken n = ground arith

-- A literal without line ends in front of a token or of other fields.
pub token-IsInline : (s : Bytes) → IsToken s → All IsInline s
token-IsInline s h = All-map _ IsInline s (λ x p. p.1) h

pub field-IsInline :
    (key s rest : Bytes)
    → All IsInline key
    → IsToken s
    → All IsInline rest
    → All IsInline (key ++ (s ++ rest))
field-IsInline key s rest hk hs hr =
    All-append IsInline key (s ++ rest) hk (All-append IsInline s rest (token-IsInline s hs) hr)

pub begin_fields-IsInline :
    (part total line size name : Bytes)
    → IsToken part
    → IsToken total
    → IsToken line
    → IsToken size
    → All IsInline name
    → All IsInline (begin_fields part total line size name)
begin_fields-IsInline part total line size name hp ht hl hs hn =
    field-IsInline (codes " part=") part _ (ground arith) hp (
      field-IsInline (codes " total=") total _ (ground arith) ht (
        field-IsInline (codes " line=") line _ (ground arith) hl (
          field-IsInline (codes " size=") size _ (ground arith) hs
            (All-append IsInline (codes " name=") name (ground arith) hn))))

abbrev pub line_end : Bytes → Bytes
line_end rest = b'\r' ∷ b'\n' ∷ rest

abbrev pub initial : Decoder
initial = record { out = empty_part; body = []; started = false }

-- From the data lines on.
pub decode_data :
    (bytes kv : Bytes) (s : Decoder)
    → All (λ b. b < 256) bytes
    → All IsInline kv
    → s.started ≡ true
    → decode_lines (read_lines (encode_data 0 bytes ++ (codes "=yend" ++ (kv ++ line_end [])))) s
      ≡ record s { body = s.body ++ bytes; out = parse_end kv s.out }
decode_data bytes kv s small inline go =
    decode_lines-encode_data bytes s _ small go ∙ decode_lines_end kv [] (add s bytes) inline

pub finish_ok :
    (out : DecodedPart) (bytes : Bytes)
    → (out.part_crc ≡ 0) ⊎ (out.part_crc ≡ checksum_ieee bytes)
    → finish (record { out = out; body = bytes; started = true })
      ≡ ok (record out { content = bytes })
unfolding finish
finish_ok out bytes h = ground arith

-- The bytes that the encoder writes, bracketed to the right.
pub part_text :
    (name : Bytes) (p t size b : ℕ) (bytes : Bytes) (end : Bytes)
    → 1 ≤ p
    → begin_lines name (pos p) (pos t) (pos size) (pos b) (length bytes)
        ++ encode_data 0 bytes
        ++ end
      ≡ codes "=ybegin"
        ++ (begin_fields
              (format_int (pos p))
              (format_int (pos t))
              (format_int (pos yenc_line_len))
              (format_int (pos size))
              name
            ++ line_end (
                codes "=ypart"
                ++ (part_fields
                      (format_int (pos b))
                      (format_int (int64 (pos b +ℤ pos (length bytes) -ℤ pos 1)))
                    ++ line_end (encode_data 0 bytes ++ end))))
unfolding begin_lines
part_text name p t size b bytes end h = rw (lt→ltb 0 p h) (simp append_assoc)

pub single_text :
    (name : Bytes) (size : ℕ) (t b : ℤ) (bytes : Bytes) (end : Bytes)
    → begin_lines name (pos 0) t (pos size) b (length bytes) ++ encode_data 0 bytes ++ end
      ≡ codes "=ybegin"
        ++ (single_fields (format_int (pos yenc_line_len)) (format_int (pos size)) name
            ++ line_end (encode_data 0 bytes ++ end))
unfolding begin_lines
single_text name size t b bytes end = simp append_assoc

-- The checksum of the whole file is written on the last part only.
abbrev pub sent_file_crc : ℕ → ℕ → ℕ → ℕ
sent_file_crc p t file_crc = if not (file_crc == 0) && p == t then file_crc else 0

pub end_line_part :
    (p t len crc file_crc : ℕ) (out : DecodedPart)
    → 1 ≤ p
    → crc < 2 ^ 32
    → file_crc < 2 ^ 32
    → out.file_crc ≡ 0
    → (kv : Bytes) × (end_line (pos p) (pos t) len crc file_crc
        ≡ codes "=yend" ++ (kv ++ line_end []))
      × All IsInline kv
      × (parse_end kv out ≡ record out { part_crc = crc; file_crc = sent_file_crc p t file_crc })
unfolding end_line
end_line_part p t len crc file_crc out h hc hf none_yet =
    let size = format_int (pos len) in
    let part = format_int (pos p) in
    let c = format_hex8 crc in
    let f = format_hex8 file_crc in
    let crc_back = parse_uint-format_hex8 crc hc in
    let file_back = parse_uint-format_hex8 file_crc hf in
    elim (Bool-cases (not (file_crc == 0) && p == t)) [
      | inl last ↦ (
        end_fields size part (c ++ (codes " crc32=" ++ f)),
        rw (lt→ltb 0 p h) (rw last (simp append_assoc)),
        field-IsInline (codes " size=") size _ (ground arith) (format_int-IsToken len) (
            field-IsInline (codes " part=") part _ (ground arith) (format_int-IsToken p) (
              field-IsInline (codes " pcrc32=") c _ (ground arith) (format_hex8-IsToken crc) (
                All-append IsInline (codes " crc32=") f (ground arith)
                  (token-IsInline f (format_hex8-IsToken file_crc))))),
        parse_end_last size part c f out (format_int-IsToken len) (format_int-IsToken p)
              (format_hex8-IsToken crc) (format_hex8-IsToken file_crc)
            ∙ rw last (rw (crc_back, file_back)),
      )
      | inr other ↦ (
        end_fields size part c,
        rw (lt→ltb 0 p h) (rw other (simp append_assoc)),
        field-IsInline (codes " size=") size _ (ground arith) (format_int-IsToken len) (
            field-IsInline (codes " part=") part _ (ground arith) (format_int-IsToken p) (
              All-append IsInline (codes " pcrc32=") c (ground arith)
                (token-IsInline c (format_hex8-IsToken crc)))),
        parse_end_part size part c out (format_int-IsToken len) (format_int-IsToken p)
              (format_hex8-IsToken crc)
            ∙ rw other (ground (arith, crc_back, none_yet)),
      )
    ]

pub end_line_single :
    (len : ℕ) (t : ℤ) (crc file_crc : ℕ)
    → end_line (pos 0) t len crc file_crc
      ≡ codes "=yend"
        ++ ((codes " size=" ++ (format_int (pos len) ++ (codes " crc32=" ++ format_hex8 crc)))
            ++ line_end [])
unfolding end_line
end_line_single len t crc file_crc = simp append_assoc
