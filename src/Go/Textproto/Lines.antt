-- ===== src/Go/Textproto/Lines.antt =====
-- Texts of whole lines through the writer and the reader.
use ol1n_super_app.Base.{
  ◌≡◌, refl, ap, ◌∙◌, Option, none, some, List, [], ◌∷◌, ◌++◌, append_assoc, arith, Bytes, All,
  ◌==◌, if◌then◌else◌,
}
use ol1n_super_app.Go.Strings.{IsInline}
use ol1n_super_app.Go.Textproto.{
  begin_line, within, dot_write, line_start, in_line, prepend_text, dot_read,
}

-- The lines, each with CR LF behind it, and each with LF.
unfoldable pub crlf_text : List Bytes → Bytes
crlf_text [] = []
crlf_text (l ∷ ls) = l ++ (b'\r' ∷ b'\n' ∷ crlf_text ls)

unfoldable pub lf_text : List Bytes → Bytes
lf_text [] = []
lf_text (l ∷ ls) = l ++ (b'\n' ∷ lf_text ls)

abbrev pub AreInline : List Bytes → Type 0
AreInline = All (All IsInline)

-- A line with its dot doubled.
abbrev stuffed : Bytes → Bytes
stuffed [] = []
stuffed (c ∷ cs) = if c == b'.' then b'.' ∷ b'.' ∷ cs else c ∷ cs

prepend_nil : (o : Option Bytes) → prepend_text [] o ≡ o
prepend_nil none = refl
prepend_nil (some s) = refl

end_read : dot_read line_start (dot_write begin_line []) ≡ some []
unfolding dot_read dot_write
end_read = refl

write_within :
    (l rest : Bytes)
    → All IsInline l
    → dot_write within (l ++ (b'\r' ∷ b'\n' ∷ rest))
      ≡ l ++ (b'\r' ∷ b'\n' ∷ dot_write begin_line rest)
unfolding dot_write
write_within [] rest h = refl
write_within (c ∷ l) rest (hc, h) = ground (arith, write_within l rest h)

write_line :
    (l rest : Bytes)
    → All IsInline l
    → dot_write begin_line (l ++ (b'\r' ∷ b'\n' ∷ rest))
      ≡ stuffed l ++ (b'\r' ∷ b'\n' ∷ dot_write begin_line rest)
unfolding dot_write
write_line [] rest h = refl
write_line (c ∷ l) rest (hc, h) = ground (arith, write_within l rest h)

read_in_line :
    (l rest : Bytes)
    → All IsInline l
    → dot_read in_line (l ++ (b'\r' ∷ b'\n' ∷ rest))
      ≡ prepend_text (l ++ (b'\n' ∷ [])) (dot_read line_start rest)
unfolding dot_read
read_in_line [] rest h = prepend_nil (prepend_text (b'\n' ∷ []) (dot_read line_start rest))
read_in_line (c ∷ l) rest (hc, h) = ground (arith, read_in_line l rest h)

read_line :
    (l rest : Bytes)
    → All IsInline l
    → dot_read line_start (stuffed l ++ (b'\r' ∷ b'\n' ∷ rest))
      ≡ prepend_text (l ++ (b'\n' ∷ [])) (dot_read line_start rest)
unfolding dot_read
read_line [] rest h = prepend_nil (prepend_text (b'\n' ∷ []) (dot_read line_start rest))
read_line (c ∷ l) rest (hc, h) = ground (arith, read_in_line l rest h)

-- What the writer sends for whole lines, the reader gives back with LF at their ends.
pub dot_read-dot_write :
    (ls : List Bytes)
    → AreInline ls
    → dot_read line_start (dot_write begin_line (crlf_text ls)) ≡ some (lf_text ls)
unfolding crlf_text lf_text
dot_read-dot_write [] h = end_read
dot_read-dot_write (l ∷ ls) (hl, h) =
    ap (dot_read line_start) (write_line l (crlf_text ls) hl)
    ∙ read_line l _ hl
    ∙ ap (prepend_text (l ++ (b'\n' ∷ []))) (dot_read-dot_write ls h)
    ∙ ap some (append_assoc l (b'\n' ∷ []) (lf_text ls))
