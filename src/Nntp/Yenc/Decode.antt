-- ===== src/Nntp/Yenc/Decode.antt =====
-- `YEncDecode`, `parseKV` and `parseEnd`. The reader is the article body in memory, as every caller
-- has it, so that it ends and never fails.
use ol1n_super_app.Base.{
  ℕ, zero, suc, ◌+◌, ◌-◌, ◌%◌, ◌≡◌, refl, Bool, true, false, not, ◌&&◌, none, some, List, [], ◌∷◌,
  ◌++◌, ◌==◌, if◌then◌else◌, Bytes, codes, length, same,
}
use ol1n_super_app.Base.Ints.{ℤ, pos}
use ol1n_super_app.Go.Strings.{trim_left, trim_right, cut, strip_prefix, read_lines}
use ol1n_super_app.Go.Numbers.{parse_int, parse_uint}
use ol1n_super_app.Go.Crc.{checksum_ieee}

pub record DecodedPart : Type 0 where
  pub filename : Bytes
  pub total_size : ℤ
  pub part : ℤ
  pub total : ℤ
  pub begin : ℤ
  pub end : ℤ
  pub content : Bytes  -- the field Data
  pub part_crc : ℕ
  pub file_crc : ℕ

abbrev pub empty_part : DecodedPart
empty_part = record {
  filename = [];
  total_size = pos 0;
  part = pos 0;
  total = pos 0;
  begin = pos 0;
  end = pos 0;
  content = [];
  part_crc = 0;
  file_crc = 0;
}

-- The value of a field, and the rest of the line behind the blanks.
unfoldable pub next_value : Bytes → Bytes × Bytes
next_value rest = elim (cut b' ' rest) [
  | none ↦ (rest, [])
  | some (val, after) ↦ (val, trim_left (b' ' ∷ after))
]

-- The `switch key` of `parseKV`; the flag is its argument `part`.
unfoldable pub set_field : Bool → Bytes → Bytes → DecodedPart → DecodedPart
unfolding same
set_field is_part key val out =
    if same key (codes "size")
    then (if is_part then out else record out { total_size = parse_int val })
    else if same key (codes "part")
    then record out { part = parse_int val }
    else if same key (codes "total")
    then record out { total = parse_int val }
    else if same key (codes "begin")
    then record out { begin = parse_int val }
    else if same key (codes "end")
    then record out { end = parse_int val }
    else out

-- The loop of `parseKV`. Each round drops an '=' at least, so the length of the line is fuel enough.
unfoldable pub kv_loop : ℕ → Bool → Bytes → DecodedPart → DecodedPart
kv_loop zero is_part s out = out
kv_loop (suc f) is_part s out = elim (cut b'=' s) [
  | none ↦ out
  | some (key, rest) ↦
      if same key (codes "name")
      then record out { filename = rest }
      else kv_loop f is_part (next_value rest).1 (set_field is_part key (next_value rest).0 out)
]

unfoldable pub parse_kv : Bytes → DecodedPart → Bool → DecodedPart
parse_kv s out is_part = kv_loop (length s) is_part (trim_left s) out

-- The `switch key` of `parseEnd`.
unfoldable pub set_crc : Bytes → Bytes → DecodedPart → DecodedPart
unfolding same
set_crc key val out =
    if same key (codes "pcrc32")
    then record out { part_crc = parse_uint 16 32 val }
    else if same key (codes "crc32")
    then record out { file_crc = parse_uint 16 32 val }
    else out

unfoldable pub end_loop : ℕ → Bytes → DecodedPart → DecodedPart
end_loop zero s out = out
end_loop (suc f) s out = elim (cut b'=' s) [
  | none ↦ out
  | some (key, rest) ↦ end_loop f (next_value rest).1 (set_crc key (next_value rest).0 out)
]

unfoldable pub parse_end : Bytes → DecodedPart → DecodedPart
parse_end s out = end_loop (length s) (trim_left s) out

-- The loop over a data line: an '=' that ends the line stands for itself.
unfoldable pub decode_bytes : Bytes → Bytes
decode_bytes [] = []
decode_bytes (c ∷ []) = ((c + 256 - 42) % 256) ∷ []
decode_bytes (c ∷ d ∷ cs) =
    let escaped = ((d + 512 - 64 - 42) % 256) ∷ decode_bytes cs in
    let plain = ((c + 256 - 42) % 256) ∷ decode_bytes (d ∷ cs) in
    if c == b'=' then escaped else plain

-- The variables of the loop over the lines.
pub record Decoder : Type 0 where
  pub out : DecodedPart
  pub body : Bytes
  pub started : Bool

-- The `switch` on a line without its end, and whether it leaves the loop by `goto done`.
unfoldable pub decode_trimmed : Bytes → Decoder → Decoder × Bool
unfolding strip_prefix
decode_trimmed line s = elim (strip_prefix (codes "=ybegin") line) [
  | some kv ↦ (record s { out = parse_kv kv s.out false; started = true }, false)
  | none ↦ elim (strip_prefix (codes "=ypart") line) [
    | some kv ↦ (record s { out = parse_kv kv s.out true }, false)
    | none ↦ elim (strip_prefix (codes "=yend") line) [
      | some kv ↦ (record s { out = parse_end kv s.out }, true)
      | none ↦
          if s.started then (record s { body = s.body ++ decode_bytes line }, false) else (s, false)
    ]
  ]
]

-- One round of the loop.
unfoldable pub decode_line : Bytes → Decoder → Decoder × Bool
decode_line raw = decode_trimmed (trim_right raw)

unfoldable pub decode_lines : List Bytes → Decoder → Decoder
decode_lines [] s = s
decode_lines (l ∷ ls) s =
    let (s', stop) = decode_line l s in let rest = decode_lines ls s' in if stop then s' else rest

-- A mismatch returns the part beside its error.
pub data Decoded : Type 0 where
  ok : DecodedPart → Decoded
  begin_not_found : Decoded
  pcrc32_mismatch : DecodedPart → Decoded

unfoldable pub finish : Decoder → Decoded
finish s =
    let out = record s.out { content = s.body } in
    if not s.started
    then begin_not_found
    else if not (out.part_crc == 0) && not (checksum_ieee out.content == out.part_crc)
    then pcrc32_mismatch out
    else ok out

unfoldable pub yenc_decode : Bytes → Decoded
unfolding decode_lines decode_line decode_trimmed finish decode_bytes parse_kv kv_loop set_field
    next_value parse_end end_loop set_crc
yenc_decode input =
    finish
      (decode_lines (read_lines input) (record { out = empty_part; body = []; started = false }))

decode_test :
    yenc_decode
      (codes "x\r\n=ybegin line=128 size=3 name=a b\r\n=@=}k\r\n=yend size=3 crc32=1671a004\r\n")
    ≡ ok (record empty_part {
      filename = codes "a b";
      total_size = pos 3;
      content = 0xD6 ∷ 0x13 ∷ 0x41 ∷ [];
      file_crc = 0x1671a004;
    })
unfolding yenc_decode read_lines trim_right trim_left cut parse_int parse_uint checksum_ieee
decode_test = refl
