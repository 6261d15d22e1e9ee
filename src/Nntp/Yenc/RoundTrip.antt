-- ===== src/Nntp/Yenc/RoundTrip.antt =====
-- A segment that was encoded is decoded to what it was made from.
use ol1n_super_app.Base.{
  ℕ, ◌+◌, ◌-◌, ◌^◌, ◌≤◌, ◌<◌, ◌≡◌, refl, ap, ◌∙◌, true, inl, inr, [], ◌++◌, arith, Bytes, codes,
  length, All, All-append,
}
use ol1n_super_app.Base.Ints.{ℤ, pos, ◌+ℤ◌, ◌-ℤ◌, int64, int64_end}
use ol1n_super_app.Go.Strings.{IsInline, read_lines}
use ol1n_super_app.Go.Numbers.{format_int, format_hex8, parse_int}
use ol1n_super_app.Go.Numbers.RoundTrip.{parse_int-format_int, parse_uint-format_hex8}
use ol1n_super_app.Go.Crc.{checksum_ieee, checksum_ieee-lt}
use ol1n_super_app.Nntp.Yenc.Encode.{
  yenc_line_len, encode_data, begin_lines, end_line, yenc_encode_segment,
}
use ol1n_super_app.Nntp.Yenc.Decode.{DecodedPart, empty_part, decode_lines, finish, ok, yenc_decode}
use ol1n_super_app.Nntp.Yenc.Keywords.{decode_lines_begin, decode_lines_part}
use ol1n_super_app.Nntp.Yenc.Headers.{
  IsToken, begin_fields, parse_kv_begin, single_fields, parse_kv_single, part_fields, parse_kv_part,
  parse_end_single,
}
use ol1n_super_app.Nntp.Yenc.Lines.{
  format_int-IsToken, format_hex8-IsToken, token-IsInline, field-IsInline, begin_fields-IsInline,
  decode_data, finish_ok, part_text, single_text, end_line_part, initial, line_end, sent_file_crc,
  end_line_single,
}

-- What the decoder returns for a part.
abbrev pub sent_part : Bytes → ℕ → ℕ → ℕ → ℕ → Bytes → ℕ → DecodedPart
sent_part name p t size b bytes file_crc = record {
  filename = name;
  total_size = pos size;
  part = pos p;
  total = pos t;
  begin = pos b;
  end = pos (b + length bytes - 1);
  content = bytes;
  part_crc = checksum_ieee bytes;
  file_crc = sent_file_crc p t file_crc;
}

yenc_decode_lem :
    (input : Bytes) → yenc_decode input ≡ finish (decode_lines (read_lines input) initial)
unfolding yenc_decode
yenc_decode_lem input = refl

pub yenc_encode_segment_lem :
    (name : Bytes) (p t size b : ℤ) (bytes : Bytes) (file_crc : ℕ)
    → yenc_encode_segment name p t size b bytes file_crc
      ≡ begin_lines name p t size b (length bytes)
        ++ encode_data 0 bytes
        ++ end_line p t (length bytes) (checksum_ieee bytes) file_crc
unfolding yenc_encode_segment
yenc_encode_segment_lem name p t size b bytes file_crc = refl

-- The two header lines.
decode_headers :
    (part total line size name begin end rest : Bytes)
    → IsToken part × IsToken total × IsToken line × IsToken size × IsToken begin × IsToken end
    → All IsInline name
    → decode_lines
        (read_lines (
          codes "=ybegin"
          ++ (begin_fields part total line size name
              ++ line_end (codes "=ypart" ++ (part_fields begin end ++ line_end rest)))))
        initial
      ≡ decode_lines (read_lines rest) (record initial {
        out = record empty_part {
          filename = name;
          total_size = parse_int size;
          part = parse_int part;
          total = parse_int total;
          begin = parse_int begin;
          end = parse_int end;
        };
        started = true;
      })
decode_headers part total line size name begin end rest (hp, ht, hl, hs, hb, he) hn =
    decode_lines_begin (begin_fields part total line size name) _ initial
      (begin_fields-IsInline part total line size name hp ht hl hs hn)
    ∙ ap
        (λ o.
          decode_lines (read_lines (codes "=ypart" ++ (part_fields begin end ++ line_end rest)))
            (record initial { out = o; started = true }))
        (parse_kv_begin part total line size name empty_part hp ht hl hs)
    ∙ decode_lines_part (part_fields begin end) rest _ (
        field-IsInline (codes " begin=") begin _ (ground arith) hb
          (All-append IsInline (codes " end=") end (ground arith) (token-IsInline end he)))
    ∙ ap (λ o. decode_lines (read_lines rest) (record initial { out = o; started = true }))
        (parse_kv_part begin end _ hb he)

-- Decoding an encoded part of a multi-part article returns the file's name and size, the part's
-- number, the number of parts, the part's offsets, its bytes, its checksum, and on the last part
-- the file's checksum where one was given: for a name without CR and LF, bytes below 256, numbers
-- that fit an int64, and offsets that start at 1.
pub yenc_decode-yenc_encode_segment :
    (name : Bytes) (p t size b : ℕ) (bytes : Bytes) (file_crc : ℕ)
    → All IsInline name
    → All (λ x. x < 256) bytes
    → (1 ≤ p) × (p < 2 ^ 63) × (t < 2 ^ 63) × (size < 2 ^ 63) × (file_crc < 2 ^ 32)
    → (1 ≤ b) × (b < 2 ^ 63) × (b + length bytes ≤ 2 ^ 63)
    → yenc_decode (yenc_encode_segment name (pos p) (pos t) (pos size) (pos b) bytes file_crc)
      ≡ ok (sent_part name p t size b bytes file_crc)
yenc_decode-yenc_encode_segment name p t size b bytes file_crc inline small (hp, hp', ht, hs, hf)
      (hb, hb₀, hb') =
    let last = int64 (pos b +ℤ pos (length bytes) -ℤ pos 1) in
    let read_end = int64_end b (length bytes) hb hb' in
    let out = record (sent_part name p t size b bytes file_crc) {
      content = [];
      part_crc = 0;
      file_crc = 0;
    } in
    let (kv, written, kv_inline, kv_read) =
      end_line_part p t (length bytes) (checksum_ieee bytes) file_crc out hp
        (checksum_ieee-lt bytes) hf refl in
    ap yenc_decode (
      yenc_encode_segment_lem name (pos p) (pos t) (pos size) (pos b) bytes file_crc
      ∙ ap
          (λ e.
            begin_lines name (pos p) (pos t) (pos size) (pos b) (length bytes)
            ++ encode_data 0 bytes
            ++ e)
          written
      ∙ part_text name p t size b bytes _ hp)
    ∙ yenc_decode_lem _
    ∙ ap finish (
        decode_headers _ _ _ _ name _ _ _
          (
            format_int-IsToken p,
            format_int-IsToken t,
            format_int-IsToken _,
            format_int-IsToken size,
            format_int-IsToken b,
            rw read_end (format_int-IsToken _),
          )
          inline
        ∙ (rw (
          read_end,
          parse_int-format_int size hs,
          parse_int-format_int p hp',
          parse_int-format_int t ht,
          parse_int-format_int b hb₀,
          parse_int-format_int (b + length bytes - 1) (omega arith),
        ))
        ∙ decode_data bytes kv (record initial { out = out; started = true }) small kv_inline refl
        ∙ ap (λ o. record { out = o; body = bytes; started = true }) kv_read)
    ∙ finish_ok _ bytes (inr refl)

-- Decoding an encoded single-part article (part number 0) returns the file's name, its size and its
-- bytes; its checksum comes back as that of the file, and the fields of parts stay 0: for a name
-- without CR and LF, bytes below 256, and a size that fits an int64.
pub yenc_decode-yenc_encode_single :
    (name : Bytes) (t b : ℤ) (size : ℕ) (bytes : Bytes) (file_crc : ℕ)
    → All IsInline name
    → All (λ x. x < 256) bytes
    → size < 2 ^ 63
    → yenc_decode (yenc_encode_segment name (pos 0) t (pos size) b bytes file_crc)
      ≡ ok (record empty_part {
        filename = name;
        total_size = pos size;
        content = bytes;
        file_crc = checksum_ieee bytes;
      })
yenc_decode-yenc_encode_single name t b size bytes file_crc inline small hs =
    let line = format_int (pos yenc_line_len) in
    let whole = format_int (pos size) in
    let len = format_int (pos (length bytes)) in
    let crc = format_hex8 (checksum_ieee bytes) in
    let out = record empty_part { filename = name; total_size = pos size } in
    let kv = codes " size=" ++ (len ++ (codes " crc32=" ++ crc)) in
    ap yenc_decode (
      yenc_encode_segment_lem name (pos 0) t (pos size) b bytes file_crc
      ∙ ap (λ e. begin_lines name (pos 0) t (pos size) b (length bytes) ++ encode_data 0 bytes ++ e)
          (end_line_single (length bytes) t (checksum_ieee bytes) file_crc)
      ∙ single_text name size t b bytes _)
    ∙ yenc_decode_lem _
    ∙ ap finish (
        decode_lines_begin (single_fields line whole name) _ initial (
          field-IsInline (codes " line=") line _ (ground arith) (format_int-IsToken _) (
            field-IsInline (codes " size=") whole _ (ground arith) (format_int-IsToken size)
              (All-append IsInline (codes " name=") name (ground arith) inline)))
        ∙ (rw (
          parse_kv_single line whole name empty_part (format_int-IsToken _)
              (format_int-IsToken size),
          parse_int-format_int size hs,
        ))
        ∙ decode_data bytes kv (record initial { out = out; started = true }) small
            (field-IsInline (codes " size=") len _ (ground arith) (format_int-IsToken _) (
              All-append IsInline (codes " crc32=") crc (ground arith)
                (token-IsInline crc (format_hex8-IsToken _))))
            refl
        ∙ ap (λ o. record { out = o; body = bytes; started = true })
            (parse_end_single len crc out (format_int-IsToken _) (format_hex8-IsToken _)
              ∙ ap (λ c. record out { file_crc = c })
                  (parse_uint-format_hex8 (checksum_ieee bytes) (checksum_ieee-lt bytes))))
    ∙ finish_ok _ bytes (inl refl)
