-- ===== src/Nntp/Yenc/Keywords.antt =====
-- The keyword lines: reading the fields of a line back, and a line's effect on the decoder.
use ol1n_super_app.Base.{
  ℕ, zero, suc, ◌≡◌, ◌≢◌, refl, ap, ◌∙◌, Bool, true, false, [], ◌∷◌, ◌++◌, arith, Bytes, codes, All,
  All-append, same, append_assoc, append-nil,
}
use ol1n_super_app.Go.Strings.{
  IsInline, crlf, trim_left, trim_right, trim_right_line, cut, cut-append, cut-eq_none, read_lines,
  read_lines-append,
}
use ol1n_super_app.Nntp.Yenc.Decode.{
  decode_trimmed, DecodedPart, Decoder, next_value, set_field, kv_loop, parse_kv, set_crc, end_loop,
  parse_end, decode_line, decode_lines,
}

abbrev pub Lacks : ℕ → Bytes → Type 0
Lacks c = All (λ x. x ≢ c)

next_value_more :
    (val rest : Bytes)
    → Lacks b' ' val
    → next_value (val ++ (b' ' ∷ rest)) ≡ (val, trim_left (b' ' ∷ rest))
unfolding next_value trim_left
next_value_more val rest h = rw (cut-append b' ' val rest h, next_value)

next_value_last : (val : Bytes) → Lacks b' ' val → next_value val ≡ (val, [])
unfolding next_value
next_value_last val h = rw (cut-eq_none b' ' val h, next_value)

module _ (f : ℕ) (is_part : Bool) (key val : Bytes) (out : DecodedPart) (key_ok : Lacks b'=' key)
    (val_ok : Lacks b' ' val) where
  kv_step :
      (after : Bytes) {s' : Bytes}
      → same key (codes "name") ≡ false
      → next_value after ≡ (val, s')
      → kv_loop (suc f) is_part (key ++ (b'=' ∷ after)) out
        ≡ kv_loop f is_part s' (set_field is_part key val out)
  unfolding kv_loop
  kv_step after h e = ground (arith, cut-append b'=' key after key_ok, h, e)

  -- A field that another one follows.
  pub kv_more :
      (rest : Bytes)
      → same key (codes "name") ≡ false
      → kv_loop (suc f) is_part (key ++ (b'=' ∷ (val ++ (b' ' ∷ rest)))) out
        ≡ kv_loop f is_part (trim_left (b' ' ∷ rest)) (set_field is_part key val out)
  kv_more rest h = kv_step (val ++ (b' ' ∷ rest)) h (next_value_more val rest val_ok)

  -- The last field of a line.
  pub kv_last :
      same key (codes "name") ≡ false
      → kv_loop (suc f) is_part (key ++ (b'=' ∷ val)) out
        ≡ kv_loop f is_part [] (set_field is_part key val out)
  kv_last h = kv_step val h (next_value_last val val_ok)

  end_step :
      (after : Bytes) {s' : Bytes}
      → next_value after ≡ (val, s')
      → end_loop (suc f) (key ++ (b'=' ∷ after)) out ≡ end_loop f s' (set_crc key val out)
  unfolding end_loop
  end_step after e = ground (arith, cut-append b'=' key after key_ok, e)

  pub end_more :
      (rest : Bytes)
      → end_loop (suc f) (key ++ (b'=' ∷ (val ++ (b' ' ∷ rest)))) out
        ≡ end_loop f (trim_left (b' ' ∷ rest)) (set_crc key val out)
  end_more rest = end_step (val ++ (b' ' ∷ rest)) (next_value_more val rest val_ok)

  pub end_last : end_loop (suc f) (key ++ (b'=' ∷ val)) out ≡ end_loop f [] (set_crc key val out)
  end_last = end_step val (next_value_last val val_ok)

-- The name is the rest of the line, blanks and '=' included.
pub kv_name :
    (f : ℕ) (is_part : Bool) (name : Bytes) (out : DecodedPart)
    → kv_loop (suc f) is_part (codes "name=" ++ name) out ≡ record out { filename = name }
unfolding kv_loop cut same
kv_name f is_part name out = refl

-- Nothing is left to read.
pub kv_loop-nil : (f : ℕ) (is_part : Bool) (out : DecodedPart) → kv_loop f is_part [] out ≡ out
unfolding kv_loop cut
kv_loop-nil zero is_part out = refl
kv_loop-nil (suc f) is_part out = refl

pub end_loop-nil : (f : ℕ) (out : DecodedPart) → end_loop f [] out ≡ out
unfolding end_loop cut
end_loop-nil zero out = refl
end_loop-nil (suc f) out = refl

-- A line that the encoder ends is read as written, and the three keywords select their branch.
module _ (kv rest : Bytes) (s : Decoder) (inline : All IsInline kv) where
  abbrev line : Bytes → Bytes
  line key = key ++ kv

  line-IsInline : (key : Bytes) → All IsInline key → All IsInline (line key)
  line-IsInline key h = All-append IsInline key kv h inline

  trimmed : (key : Bytes) → All IsInline key → trim_right (line key ++ crlf) ≡ line key
  trimmed key h = trim_right_line (line key) (line-IsInline key h) ∙ append-nil (line key)

  read_first :
      (key : Bytes)
      → All IsInline key
      → read_lines (key ++ (kv ++ (b'\r' ∷ b'\n' ∷ rest))) ≡ (line key ++ crlf) ∷ read_lines rest
  read_first key h =
      ap read_lines (simp append_assoc) ∙ read_lines-append (line key) rest (line-IsInline key h)

  pub decode_lines_begin :
      decode_lines (read_lines (codes "=ybegin" ++ (kv ++ (b'\r' ∷ b'\n' ∷ rest)))) s
      ≡ decode_lines (read_lines rest) (record s { out = parse_kv kv s.out false; started = true })
  unfolding decode_lines decode_line decode_trimmed
  decode_lines_begin =
      let key = codes "=ybegin" in
      rw (read_first key (ground arith)) (rw (trimmed key (ground arith)))

  pub decode_lines_part :
      decode_lines (read_lines (codes "=ypart" ++ (kv ++ (b'\r' ∷ b'\n' ∷ rest)))) s
      ≡ decode_lines (read_lines rest) (record s { out = parse_kv kv s.out true })
  unfolding decode_lines decode_line decode_trimmed
  decode_lines_part =
      let key = codes "=ypart" in
      rw (read_first key (ground arith)) (rw (trimmed key (ground arith)))

  pub decode_lines_end :
      decode_lines (read_lines (codes "=yend" ++ (kv ++ (b'\r' ∷ b'\n' ∷ rest)))) s
      ≡ record s { out = parse_end kv s.out }
  unfolding decode_lines decode_line decode_trimmed
  decode_lines_end =
      let key = codes "=yend" in
      rw (read_first key (ground arith)) (rw (trimmed key (ground arith)))
