-- ===== src/Nntp/Yenc/Encode.antt =====
-- `YEncEncodeSegment`. A buffer that is only written to is the list of the bytes written.
use ol1n_super_app.Base.{
  ℕ, ◌+◌, ◌%◌, ◌≡◌, refl, Bool, false, not, ◌&&◌, ◌||◌, [], ◌∷◌, ◌++◌, ltb, leb, ◌==◌,
  if◌then◌else◌, Bytes, codes, length,
}
use ol1n_super_app.Base.Ints.{ℤ, pos, ◌+ℤ◌, ◌-ℤ◌, is_positive, int64}
use ol1n_super_app.Go.Strings.{crlf, is_nil}
use ol1n_super_app.Go.Numbers.{format_int, format_hex8}
use ol1n_super_app.Go.Crc.{checksum_ieee}

abbrev pub segment_size : ℕ
segment_size = 750000

abbrev pub yenc_line_len : ℕ
yenc_line_len = 128

-- The bytes that are escaped wherever they stand: NUL, LF, CR and '='.
abbrev pub is_critical : ℕ → Bool
is_critical out = out == 0x00 || out == 0x0A || out == 0x0D || out == 0x3D

abbrev pub needs_escape : ℕ → Bool → Bool → Bool
needs_escape out at_line_start at_line_end =
    is_critical out
    || ((out == 0x09 || out == 0x20) && (at_line_start || at_line_end))
    || (at_line_start && out == 0x2E)

-- What the loop writes for the byte `b` before it looks at the line's length.
unfoldable pub encode_byte : ℕ → Bool → Bool → Bytes
encode_byte b at_line_start at_line_end =
    let out = (b + 42) % 256 in
    if needs_escape out at_line_start at_line_end then b'=' ∷ ((out + 64) % 256) ∷ [] else out ∷ []

-- The loop over the data with the column `col`, and the line end behind it.
unfoldable pub encode_data : ℕ → Bytes → Bytes
encode_data col [] = if ltb 0 col then crlf else []
encode_data col (b ∷ bs) =
    let wraps = leb yenc_line_len (col + 1) in
    encode_byte b (col == 0) (wraps || is_nil bs)
    ++ (if wraps then crlf else [])
    ++ encode_data (if wraps then 0 else col + 1) bs

-- The lines in front of the data.
unfoldable pub begin_lines : Bytes → ℤ → ℤ → ℤ → ℤ → ℕ → Bytes
begin_lines filename part total total_size part_begin len =
    if is_positive part
    then codes "=ybegin part="
      ++ format_int part
      ++ codes " total="
      ++ format_int total
      ++ codes " line="
      ++ format_int (pos yenc_line_len)
      ++ codes " size="
      ++ format_int total_size
      ++ codes " name="
      ++ filename
      ++ crlf
      ++ codes "=ypart begin="
      ++ format_int part_begin
      ++ codes " end="
      ++ format_int (int64 (part_begin +ℤ pos len -ℤ pos 1))
      ++ crlf
    else codes "=ybegin line="
      ++ format_int (pos yenc_line_len)
      ++ codes " size="
      ++ format_int total_size
      ++ codes " name="
      ++ filename
      ++ crlf

abbrev pub is_last_part : ℤ → ℤ → Bool
is_last_part (pos a) (pos b) = a == b
is_last_part _ _ = false

-- The line behind the data.
unfoldable pub end_line : ℤ → ℤ → ℕ → ℕ → ℕ → Bytes
end_line part total len part_crc file_crc =
    if is_positive part
    then (if not (file_crc == 0) && is_last_part part total
        then codes "=yend size="
          ++ format_int (pos len)
          ++ codes " part="
          ++ format_int part
          ++ codes " pcrc32="
          ++ format_hex8 part_crc
          ++ codes " crc32="
          ++ format_hex8 file_crc
          ++ crlf
        else codes "=yend size="
          ++ format_int (pos len)
          ++ codes " part="
          ++ format_int part
          ++ codes " pcrc32="
          ++ format_hex8 part_crc
          ++ crlf)
    else codes "=yend size="
      ++ format_int (pos len)
      ++ codes " crc32="
      ++ format_hex8 part_crc
      ++ crlf

unfoldable pub yenc_encode_segment : Bytes → ℤ → ℤ → ℤ → ℤ → Bytes → ℕ → Bytes
unfolding begin_lines encode_data encode_byte end_line
yenc_encode_segment filename part total total_size part_begin bytes file_crc =
    begin_lines filename part total total_size part_begin (length bytes)
    ++ encode_data 0 bytes
    ++ end_line part total (length bytes) (checksum_ieee bytes) file_crc

encode_test :
    yenc_encode_segment (codes "f") (pos 1) (pos 1) (pos 3) (pos 1) (0xD6 ∷ 0x13 ∷ 0x41 ∷ []) 0
    ≡ codes
        "=ybegin part=1 total=1 line=128 size=3 name=f\r\n=ypart begin=1 end=3\r\n=@=}k\r\n=yend size=3 part=1 pcrc32=1671a004\r\n"
unfolding yenc_encode_segment format_int format_hex8 int64 ◌+ℤ◌ ◌-ℤ◌ checksum_ieee
encode_test = refl
