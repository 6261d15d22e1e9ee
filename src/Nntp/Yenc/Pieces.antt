-- ===== src/Nntp/Yenc/Pieces.antt =====
-- The data lines: what the encoder writes for some bytes is taken apart by the decoder's loop.
use ol1n_super_app.Base.{
  ℕ, ◌+◌, ◌-◌, ◌%◌, ◌<◌, ◌≡◌, ◌≢◌, refl, ap, ◌∙◌, Bool, true, false, ◌||◌, inl, inr, none, [], ◌∷◌,
  ◌++◌, arith, ltb, leb, ◌==◌, if◌then◌else◌, Bytes, codes, All, append_assoc, append-nil,
  Bool-cases,
}
use ol1n_super_app.Go.Strings.{
  IsInline, crlf, is_nil, trim_right_line, strip_prefix, read_lines, read_lines-append,
}
use ol1n_super_app.Nntp.Yenc.Encode.{yenc_line_len, needs_escape, encode_byte, encode_data}
use ol1n_super_app.Nntp.Yenc.Decode.{
  decode_trimmed, Decoder, decode_bytes, decode_line, decode_lines,
}

-- `Piece e r`: the encoded bytes `e` hold no line end and no "=y", and decode to `r`.
pub data Piece : Bytes → Bytes → Type 0 where
  nil : Piece [] []
  plain :
      {c b : ℕ} {e r : Bytes}
      → IsInline c
      → c ≢ b'='
      → b ≡ (c + 256 - 42) % 256
      → Piece e r
      → Piece (c ∷ e) (b ∷ r)
  escaped :
      {d b : ℕ} {e r : Bytes}
      → IsInline d
      → d ≢ b'y'
      → b ≡ (d + 512 - 64 - 42) % 256
      → Piece e r
      → Piece (b'=' ∷ d ∷ e) (b ∷ r)

Piece-append : {e r e' r' : Bytes} → Piece e r → Piece e' r' → Piece (e ++ e') (r ++ r')
Piece-append nil q = q
Piece-append (plain h k v p) q = plain h k v (Piece-append p q)
Piece-append (escaped h k v p) q = escaped h k v (Piece-append p q)

pub Piece-IsInline : {e r : Bytes} → Piece e r → All IsInline e
Piece-IsInline nil = tt
Piece-IsInline (plain h k v p) = (h, Piece-IsInline p)
Piece-IsInline (escaped h k v p) = (ground arith, (h, Piece-IsInline p))

decode_bytes-Piece : {e r : Bytes} → Piece e r → decode_bytes e ≡ r
unfolding decode_bytes
decode_bytes-Piece nil = refl
decode_bytes-Piece (plain h k v nil) = ground arith
decode_bytes-Piece (plain h k v (plain h' k' v' p)) =
    ground (arith, decode_bytes-Piece (plain h' k' v' p))
decode_bytes-Piece (plain h k v (escaped h' k' v' p)) =
    ground (arith, decode_bytes-Piece (escaped h' k' v' p))
decode_bytes-Piece (escaped h k v p) = ground (arith, decode_bytes-Piece p)

-- One byte, escaped or not, is a piece that decodes to that byte.
pub encode_byte-Piece : (b : ℕ) (s e : Bool) → b < 256 → Piece (encode_byte b s e) (b ∷ [])
unfolding encode_byte
encode_byte-Piece b s e h = elim (Bool-cases (needs_escape ((b + 42) % 256) s e)) [
  | inl y ↦ rw y (escaped (ground arith) (ground arith) (ground arith) nil)
  | inr n ↦ rw n (plain (ground arith) (ground arith) (ground arith) nil)
]

-- No data line is taken for one of the three keyword lines.
strip_prefix-Piece :
    (k : ℕ) (key : Bytes) {e r : Bytes} → Piece e r → strip_prefix (b'=' ∷ b'y' ∷ k ∷ key) e ≡ none
unfolding strip_prefix
strip_prefix-Piece k key nil = refl
strip_prefix-Piece k key (plain h ne v p) = ground arith
strip_prefix-Piece k key (escaped h ne v p) = ground arith

abbrev pub add : Decoder → Bytes → Decoder
add s r = record s { body = s.body ++ r }

decode_line-Piece :
    (s : Decoder) {e r : Bytes}
    → Piece e r
    → s.started ≡ true
    → decode_line (e ++ crlf) s ≡ (add s r, false)
unfolding decode_line decode_trimmed
decode_line-Piece s {e} {r} p go = ground (
  arith,
  trim_right_line e (Piece-IsInline p),
  append-nil e,
  strip_prefix-Piece b'b' (codes "egin") p,
  strip_prefix-Piece b'p' (codes "art") p,
  strip_prefix-Piece b'e' (codes "nd") p,
  decode_bytes-Piece p,
)

pub decode_lines-Piece :
    (s : Decoder) {e r : Bytes} (tail : Bytes)
    → Piece e r
    → s.started ≡ true
    → decode_lines (read_lines (e ++ (b'\r' ∷ b'\n' ∷ tail))) s
      ≡ decode_lines (read_lines tail) (add s r)
unfolding decode_lines
decode_lines-Piece s {e} tail p go =
    rw (read_lines-append e tail (Piece-IsInline p)) (rw (decode_line-Piece s p go))

add-add : (s : Decoder) (x y z : Bytes) → x ++ y ≡ z → add (add s x) y ≡ add s z
add-add s x y z h = rw (← h) (ap (λ b. record s { body = b }) (append_assoc s.body x y))

-- The bytes of a line so far, `e`, are empty at column 0.
abbrev AtColumn : ℕ → Bytes → Bytes → Type 0
AtColumn col e r = col ≡ 0 → (e ≡ []) × (r ≡ [])

-- One round of the encoder: `later` is what it writes afterwards, from a column on.
decode_next :
    (w : Bool) (later : ℕ → Bytes) (col : ℕ) (bs : Bytes) (s : Decoder) (tail : Bytes) {b : ℕ}
    {c e r : Bytes}
    → Piece c (b ∷ [])
    → Piece e r
    → s.started ≡ true
    → ((s' : Decoder)
        → s'.started ≡ true
        → decode_lines (read_lines (later 0 ++ tail)) s'
          ≡ decode_lines (read_lines tail) (add s' bs))
    → (Piece (e ++ c) (r ++ b ∷ [])
        → decode_lines (read_lines ((e ++ c) ++ (later (col + 1) ++ tail))) s
          ≡ decode_lines (read_lines tail) (add s ((r ++ b ∷ []) ++ bs)))
    → decode_lines
        (read_lines
          (e ++ ((c ++ (if w then crlf else []) ++ later (if w then 0 else col + 1)) ++ tail)))
        s
      ≡ decode_lines (read_lines tail) (add s (r ++ (b ∷ bs)))
decode_next true later col bs s tail {b} {c} {e} {r} q p go after _ =
    ap (λ x. decode_lines (read_lines x) s) (simp append_assoc)
    ∙ decode_lines-Piece s (later 0 ++ tail) (Piece-append p q) go
    ∙ after (add s (r ++ (b ∷ []))) go
    ∙ ap (decode_lines (read_lines tail))
        (add-add s (r ++ (b ∷ [])) bs _ (append_assoc r (b ∷ []) bs))
decode_next false later col bs s tail {b} {c} {e} {r} q p go _ after =
    ap (λ x. decode_lines (read_lines x) s) (simp (append_assoc, append-nil))
    ∙ after (Piece-append p q)
    ∙ ap (λ x. decode_lines (read_lines tail) (add s x)) (append_assoc r (b ∷ []) bs)

decode_rest :
    (bs : Bytes) (col : ℕ) (s : Decoder) {e r : Bytes} (tail : Bytes)
    → All (λ b. b < 256) bs
    → Piece e r
    → AtColumn col e r
    → s.started ≡ true
    → decode_lines (read_lines (e ++ (encode_data col bs ++ tail))) s
      ≡ decode_lines (read_lines tail) (add s (r ++ bs))
unfolding encode_data
decode_rest [] col s {e} {r} tail small p at go = elim (Bool-cases (ltb 0 col)) [
  | inl pending ↦ rw pending (decode_lines-Piece s tail p go ∙ rw (append-nil r))
  | inr fresh ↦ let (e', r') = at (ground arith) in rw fresh (rw (e', r', append-nil s.body))
]
decode_rest (b ∷ bs) col s {e} {r} tail (hb, small) p at go =
    let w = leb yenc_line_len (col + 1) in
    decode_next w (λ k. encode_data k bs) col bs s tail
      (encode_byte-Piece b (col == 0) (w || is_nil bs) hb) p go
      (λ s' go'. decode_rest bs 0 s' tail small nil (λ _. (refl, refl)) go')
      (λ q. decode_rest bs (col + 1) s tail small q (λ z. absurd (omega arith)) go)

-- The decoder reads the data back from the encoder's lines, whatever follows them.
pub decode_lines-encode_data :
    (bs : Bytes) (s : Decoder) (tail : Bytes)
    → All (λ b. b < 256) bs
    → s.started ≡ true
    → decode_lines (read_lines (encode_data 0 bs ++ tail)) s
      ≡ decode_lines (read_lines tail) (add s bs)
decode_lines-encode_data bs s tail small go =
    decode_rest bs 0 s tail small nil (λ _. (refl, refl)) go
