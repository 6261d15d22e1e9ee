-- ===== src/Nntp/Yenc/Wire.antt =====
-- An encoded part over the wire: the dot-stuffed text that `DotWriter` sends, as `DotReader` gives it
-- back with LF at the line ends.
use ol1n_super_app.Base.{
  ◌-◌, ℕ, ◌+◌, ◌^◌, ◌≤◌, ◌<◌, ◌≡◌, refl, ap, sym, subst, ◌∙◌, some, [], ◌++◌, append_assoc, arith,
  Bytes, codes, All, All-append, length,
}
use ol1n_super_app.Base.Ints.{ℤ, pos, ◌+ℤ◌, ◌-ℤ◌, int64, int64_end}
use ol1n_super_app.Go.Strings.{IsInline}
use ol1n_super_app.Go.Numbers.{format_int}
use ol1n_super_app.Go.Crc.{checksum_ieee, checksum_ieee-lt}
use ol1n_super_app.Go.Textproto.{begin_line, dot_write, line_start, dot_read}
use ol1n_super_app.Go.Textproto.Lines.{lf_text, dot_read-dot_write}
use ol1n_super_app.Nntp.Yenc.Encode.{yenc_line_len, end_line, yenc_encode_segment}
use ol1n_super_app.Nntp.Yenc.Decode.{empty_part, ok, yenc_decode}
use ol1n_super_app.Nntp.Yenc.Headers.{IsToken, begin_fields, part_fields}
use ol1n_super_app.Nntp.Yenc.Lines.{
  format_int-IsToken, token-IsInline, field-IsInline, begin_fields-IsInline, line_end, part_text,
  end_line_part,
}
use ol1n_super_app.Nntp.Yenc.Text.{
  IsText, IsText-append, IsText-line, IsText-nil, encode_data-IsText, yenc_decode-lf_text,
}
use ol1n_super_app.Nntp.Yenc.RoundTrip.{
  sent_part, yenc_encode_segment_lem, yenc_decode-yenc_encode_segment,
}

-- A keyword line.
keyword-IsText :
    (key fields s : Bytes)
    → All IsInline key
    → All IsInline fields
    → IsText s
    → IsText (key ++ (fields ++ line_end s))
keyword-IsText key fields s hk hf h =
    subst IsText (append_assoc key fields (line_end s))
      (IsText-line (key ++ fields) s (All-append IsInline key fields hk hf) h)

end_line-IsText :
    (p t len crc file_crc : ℕ)
    → 1 ≤ p
    → crc < 2 ^ 32
    → file_crc < 2 ^ 32
    → IsText (end_line (pos p) (pos t) len crc file_crc)
end_line-IsText p t len crc file_crc h hc hf =
    let (kv, written, inline, _) = end_line_part p t len crc file_crc empty_part h hc hf refl in
    subst IsText (sym written)
      (keyword-IsText (codes "=yend") kv [] (ground arith) inline IsText-nil)

-- The last offset, as the encoder prints it.
abbrev last_offset : ℕ → ℕ → ℤ
last_offset b len = int64 (pos b +ℤ pos len -ℤ pos 1)

yenc_encode_segment-IsText :
    (name : Bytes) (p t size b : ℕ) (bytes : Bytes) (file_crc : ℕ)
    → All IsInline name
    → All (λ x. x < 256) bytes
    → 1 ≤ p
    → file_crc < 2 ^ 32
    → (last : ℕ) → last_offset b (length bytes) ≡ pos last
    → IsText (yenc_encode_segment name (pos p) (pos t) (pos size) (pos b) bytes file_crc)
yenc_encode_segment-IsText name p t size b bytes file_crc inline small hp hf last at =
    let end_value = format_int (last_offset b (length bytes)) in
    let end_field = codes " end=" ++ end_value in
    subst IsText
      (sym (
        yenc_encode_segment_lem name (pos p) (pos t) (pos size) (pos b) bytes file_crc
        ∙ part_text name p t size b bytes _ hp))
      (keyword-IsText (codes "=ybegin")
        (begin_fields (format_int (pos p)) (format_int (pos t)) (format_int (pos yenc_line_len))
          (format_int (pos size)) name)
        _ (ground arith)
        (begin_fields-IsInline _ _ _ _ name (format_int-IsToken p) (format_int-IsToken t)
          (format_int-IsToken yenc_line_len) (format_int-IsToken size) inline)
        (keyword-IsText (codes "=ypart") (part_fields (format_int (pos b)) end_value) _
          (ground arith)
          (field-IsInline (codes " begin=") _ end_field (ground arith) (format_int-IsToken b) (
            All-append IsInline (codes " end=") end_value (ground arith) (
              token-IsInline end_value
                (subst (λ z. IsToken (format_int z)) (sym at) (format_int-IsToken last)))))
          (IsText-append _ _ (encode_data-IsText bytes small) (
            end_line-IsText p t (length bytes) (checksum_ieee bytes) file_crc hp
              (checksum_ieee-lt bytes) hf))))

-- Posting an encoded part and fetching it again loses nothing: the text that comes back, whose line
-- ends are LF, decodes to the part that was sent, under the conditions of the decoder's round trip.
pub yenc_decode-fetched :
    (name : Bytes) (p t size b : ℕ) (bytes : Bytes) (file_crc : ℕ)
    → All IsInline name
    → All (λ x. x < 256) bytes
    → (1 ≤ p) × (p < 2 ^ 63) × (t < 2 ^ 63) × (size < 2 ^ 63) × (file_crc < 2 ^ 32)
    → (1 ≤ b) × (b < 2 ^ 63) × (b + length bytes ≤ 2 ^ 63)
    → (text : Bytes) × (dot_read line_start (
          dot_write begin_line
            (yenc_encode_segment name (pos p) (pos t) (pos size) (pos b) bytes file_crc))
        ≡ some text)
      × (yenc_decode text ≡ ok (sent_part name p t size b bytes file_crc))
yenc_decode-fetched name p t size b bytes file_crc inline small (hp, hp', ht, hs, hf)
      (hb, hb₀, hb') =
    let (ls, inline_lines, at) =
      yenc_encode_segment-IsText name p t size b bytes file_crc inline small hp hf
        (b + length bytes - 1) (int64_end b (length bytes) hb hb') in
    (
      lf_text ls,
      ap (λ s. dot_read line_start (dot_write begin_line s)) at
          ∙ dot_read-dot_write ls inline_lines,
      yenc_decode-lf_text ls inline_lines
          ∙ ap yenc_decode (sym at)
          ∙ yenc_decode-yenc_encode_segment name p t size b bytes file_crc inline small
              (hp, hp', ht, hs, hf) (hb, hb₀, hb'),
    )
