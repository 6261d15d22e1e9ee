-- ===== src/Nntp/Yenc/Text.antt =====
-- An encoded part is a text of whole lines, and the decoder reads it with LF at their ends as well.
use ol1n_super_app.Base.{
  subst, ℕ, ◌+◌, ◌<◌, ◌≡◌, refl, ap, sym, ◌∙◌, Bool, true, false, ◌||◌, inl, inr, List, [], ◌∷◌,
  ◌++◌, append_assoc, append-nil, arith, ltb, leb, ◌==◌, if◌then◌else◌, Bytes, All, All-append,
  Bool-cases,
}
use ol1n_super_app.Go.Strings.{
  IsInline, crlf, is_nil, trim_right, trim_right-append, read_lines, read_lines-append,
}
use ol1n_super_app.Go.Textproto.Lines.{crlf_text, lf_text, AreInline}
use ol1n_super_app.Nntp.Yenc.Encode.{yenc_line_len, encode_byte, encode_data}
use ol1n_super_app.Nntp.Yenc.Lines.{initial}
use ol1n_super_app.Nntp.Yenc.Decode.{
  decode_trimmed, Decoder, decode_line, decode_lines, finish, yenc_decode,
}
use ol1n_super_app.Nntp.Yenc.Pieces.{encode_byte-Piece, Piece-IsInline}

-- The bytes are whole lines without line ends inside.
abbrev pub IsText : Bytes → Type 0
IsText s = (ls : List Bytes) × AreInline ls × (s ≡ crlf_text ls)

crlf_text-append : (ls ms : List Bytes) → crlf_text (ls ++ ms) ≡ crlf_text ls ++ crlf_text ms
unfolding crlf_text
crlf_text-append [] ms = refl
crlf_text-append (l ∷ ls) ms =
    ap (λ s. l ++ (b'\r' ∷ b'\n' ∷ s)) (crlf_text-append ls ms)
    ∙ sym (append_assoc l (b'\r' ∷ b'\n' ∷ crlf_text ls) (crlf_text ms))

pub IsText-append : (s t : Bytes) → IsText s → IsText t → IsText (s ++ t)
IsText-append s t (ls, hs, es) (ms, ht, et) = (
  ls ++ ms,
  All-append (All IsInline) ls ms hs ht,
  ap (λ x. x ++ t) es ∙ ap (λ x. crlf_text ls ++ x) et ∙ sym (crlf_text-append ls ms),
)

pub IsText-line :
    (l : Bytes) (s : Bytes) → All IsInline l → IsText s → IsText (l ++ (b'\r' ∷ b'\n' ∷ s))
unfolding crlf_text
IsText-line l s h (ls, hs, es) = (l ∷ ls, (h, hs), ap (λ x. l ++ (b'\r' ∷ b'\n' ∷ x)) es)

pub IsText-nil : IsText []
unfolding crlf_text
IsText-nil = ([], tt, refl)

-- The data lines: `e` is the line so far.
encode_rest-IsText :
    (bs : Bytes) (col : ℕ) (e : Bytes)
    → All (λ b. b < 256) bs
    → All IsInline e
    → (col ≡ 0 → e ≡ [])
    → IsText (e ++ encode_data col bs)
unfolding encode_data
encode_rest-IsText [] col e small inline at = elim (Bool-cases (ltb 0 col)) [
  | inl pending ↦ rw pending (IsText-line e [] inline IsText-nil)
  | inr fresh ↦ rw (fresh, at (ground arith)) IsText-nil
]
encode_rest-IsText (b ∷ bs) col e (hb, small) inline at =
    wrapped (leb yenc_line_len (col + 1))
      (encode_byte b (col == 0) (leb yenc_line_len (col + 1) || is_nil bs))
      (Piece-IsInline
        (encode_byte-Piece b (col == 0) (leb yenc_line_len (col + 1) || is_nil bs) hb))
      (encode_rest-IsText bs 0 [] small tt (λ z. refl))
      (λ e' h. encode_rest-IsText bs (col + 1) e' small h (λ z. absurd (omega arith)))
  where
    wrapped :
        (w : Bool) (c : Bytes)
        → All IsInline c
        → IsText (encode_data 0 bs)
        → ((e' : Bytes) → All IsInline e' → IsText (e' ++ encode_data (col + 1) bs))
        → IsText (e ++ (c ++ (if w then crlf else []) ++ encode_data (if w then 0 else col + 1) bs))
    wrapped true c hc fresh more =
        subst IsText (simp append_assoc)
          (IsText-line (e ++ c) (encode_data 0 bs) (All-append IsInline e c inline hc) fresh)
    wrapped false c hc fresh more =
        subst IsText (simp (append_assoc, append-nil))
          (more (e ++ c) (All-append IsInline e c inline hc))

pub encode_data-IsText : (bs : Bytes) → All (λ b. b < 256) bs → IsText (encode_data 0 bs)
encode_data-IsText bs small = encode_rest-IsText bs 0 [] small tt (λ z. refl)

-- The lines as `ReadString` cuts them, with either end.
ended : Bytes → List Bytes → List Bytes
ended end [] = []
ended end (l ∷ ls) = (l ++ end) ∷ ended end ls

read_lines_nil : read_lines [] ≡ []
unfolding read_lines
read_lines_nil = refl

read_lines-crlf_text : (ls : List Bytes) → AreInline ls → read_lines (crlf_text ls) ≡ ended crlf ls
unfolding crlf_text ended
read_lines-crlf_text [] h = read_lines_nil
read_lines-crlf_text (l ∷ ls) (hl, h) =
    read_lines-append l (crlf_text ls) hl ∙ ap (λ r. (l ++ crlf) ∷ r) (read_lines-crlf_text ls h)

read_lines_lf :
    (l rest : Bytes)
    → All IsInline l
    → read_lines (l ++ (b'\n' ∷ rest)) ≡ (l ++ (b'\n' ∷ [])) ∷ read_lines rest
unfolding read_lines
read_lines_lf [] rest h = refl
read_lines_lf (c ∷ l) rest (hc, h) = ground (arith, read_lines_lf l rest h)

read_lines-lf_text :
    (ls : List Bytes) → AreInline ls → read_lines (lf_text ls) ≡ ended (b'\n' ∷ []) ls
unfolding lf_text ended
read_lines-lf_text [] h = read_lines_nil
read_lines-lf_text (l ∷ ls) (hl, h) =
    read_lines_lf l (lf_text ls) hl ∙ ap (λ r. (l ++ (b'\n' ∷ [])) ∷ r) (read_lines-lf_text ls h)

-- A line is decoded without its end, so that its end does not matter.
decode_line-end :
    (l : Bytes) (s : Decoder)
    → All IsInline l
    → decode_line (l ++ (b'\n' ∷ [])) s ≡ decode_line (l ++ crlf) s
unfolding decode_line trim_right
decode_line-end l s h =
    ap (λ x. decode_trimmed x s)
      (trim_right-append l (b'\n' ∷ []) h ∙ sym (trim_right-append l crlf h))

decode_lines-ended :
    (ls : List Bytes) (s : Decoder)
    → AreInline ls
    → decode_lines (ended (b'\n' ∷ []) ls) s ≡ decode_lines (ended crlf ls) s
unfolding decode_lines ended
decode_lines-ended [] s h = refl
decode_lines-ended (l ∷ ls) s (hl, h) = rw (decode_line-end l s hl) (
    ap (λ (r : Decoder). if (decode_line (l ++ crlf) s).1 then (decode_line (l ++ crlf) s).0 else r)
      (decode_lines-ended ls (decode_line (l ++ crlf) s).0 h))

pub yenc_decode-lf_text :
    (ls : List Bytes) → AreInline ls → yenc_decode (lf_text ls) ≡ yenc_decode (crlf_text ls)
unfolding yenc_decode
yenc_decode-lf_text ls h =
    ap (λ r. finish (decode_lines r initial)) (read_lines-lf_text ls h)
    ∙ ap finish (decode_lines-ended ls initial h)
    ∙ ap (λ r. finish (decode_lines r initial)) (sym (read_lines-crlf_text ls h))
