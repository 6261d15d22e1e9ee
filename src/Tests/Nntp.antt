-- ===== src/Tests/Nntp.antt =====
-- ol1n-vault/internal/nntp: the theorems at concrete inputs.
use ol1n_super_app.Base.{◌+◌, ◌≡◌, [], ◌∷◌, arith, Bytes, codes, length}
use ol1n_super_app.Base.Ints.{pos, negsuc}
use ol1n_super_app.Nntp.Yenc.Encode.{yenc_encode_segment}
use ol1n_super_app.Nntp.Yenc.Decode.{ok, yenc_decode}
use ol1n_super_app.Nntp.Yenc.RoundTrip.{sent_part, yenc_decode-yenc_encode_segment}
use ol1n_super_app.Nntp.Segments.Ends.{split_loop-split_segments}
use ol1n_super_app.Nntp.Segments.{split_loop, effective_size, split_segments}
use ol1n_super_app.Nntp.Segments.Cover.{
  concat, Covers, concat-split_segments, split_segments-Covers,
}

-- '=' once encoded, a '.' at a line start, NUL, CR and LF once encoded.
abbrev payload : Bytes
payload = 0x04 ∷ 0x13 ∷ 0xD6 ∷ 0xE3 ∷ 0xE0 ∷ 0x41 ∷ []

yenc_decode-yenc_encode_segment_example :
    yenc_decode
      (yenc_encode_segment (codes "my file.bin") (pos 2) (pos 2) (pos 9) (pos 4) payload 77)
    ≡ ok (sent_part (codes "my file.bin") 2 2 9 4 payload 77)
yenc_decode-yenc_encode_segment_example =
    yenc_decode-yenc_encode_segment (codes "my file.bin") 2 2 9 4 payload 77 (omega arith)
      (omega arith) (omega arith) (omega arith)

concat-split_segments_example : concat (split_segments payload (negsuc 0)) ≡ payload
concat-split_segments_example = concat-split_segments payload (negsuc 0)

split_segments-Covers_example :
    Covers (effective_size (pos 4)) 1 (split_segments payload (pos 4)) (length payload + 1)
split_segments-Covers_example = split_segments-Covers payload (pos 4) (omega arith)

split_loop-split_segments_example :
    split_loop (length payload + 7) 0 (effective_size (pos 4)) payload
    ≡ split_segments payload (pos 4)
split_loop-split_segments_example = split_loop-split_segments payload (pos 4) 7
