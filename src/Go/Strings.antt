-- ===== src/Go/Strings.antt =====
-- Package strings, over bytes: TrimRight with "\r\n", TrimLeft with " ", IndexByte with the two
-- slices around the hit, HasPrefix with the slice behind it.
use ol1n_super_app.Base.{
  ℕ, ◌≡◌, ◌≢◌, refl, Bool, true, false, ◌&&◌, ◌||◌, Option, none, some, List, [], ◌∷◌, ◌++◌, arith,
  ◌==◌, if◌then◌else◌, Bytes, All,
}

abbrev pub is_nil : Bytes → Bool
is_nil [] = true
is_nil (c ∷ cs) = false

abbrev pub is_eol : ℕ → Bool
is_eol c = c == b'\r' || c == b'\n'

-- `strings.TrimRight(s, "\r\n")`
unfoldable pub trim_right : Bytes → Bytes
trim_right [] = []
trim_right (c ∷ cs) = let rest = trim_right cs in if is_eol c && is_nil rest then [] else c ∷ rest

-- `strings.TrimLeft(s, " ")`
unfoldable pub trim_left : Bytes → Bytes
trim_left [] = []
trim_left (c ∷ cs) = let rest = trim_left cs in if c == b' ' then rest else c ∷ cs

-- `i := strings.IndexByte(s, c)` with `s[:i]` and `s[i+1:]`
unfoldable pub cut : ℕ → Bytes → Option (Bytes × Bytes)
cut c [] = none
cut c (x ∷ xs) =
    let rest = cut c xs in
    if x == c
    then some ([], xs)
    else elim rest [ none ↦ none | some (before, after) ↦ some (x ∷ before, after) ]

-- `strings.HasPrefix(s, p)` with `s[len(p):]`
unfoldable pub strip_prefix : Bytes → Bytes → Option Bytes
strip_prefix [] s = some s
strip_prefix (p ∷ ps) [] = none
strip_prefix (p ∷ ps) (c ∷ cs) = if p == c then strip_prefix ps cs else none

-- The lines that `ReadString('\n')` returns one after the other, each with its newline. What
-- follows the last newline is a line of its own, unless it is empty.
abbrev onto_head : ℕ → List Bytes → List Bytes
onto_head c [] = (c ∷ []) ∷ []
onto_head c (l ∷ ls) = (c ∷ l) ∷ ls

unfoldable pub read_lines : Bytes → List Bytes
read_lines [] = []
read_lines (c ∷ cs) =
    let rest = read_lines cs in if c == b'\n' then (c ∷ []) ∷ rest else onto_head c rest

abbrev pub crlf : Bytes
crlf = b'\r' ∷ b'\n' ∷ []

-- Neither CR nor LF.
abbrev pub IsInline : ℕ → Type 0
IsInline c = (c ≢ b'\r') × (c ≢ b'\n')

pub trim_right-append : (p q : Bytes) → All IsInline p → trim_right (p ++ q) ≡ p ++ trim_right q
unfolding trim_right
trim_right-append [] q h = refl
trim_right-append (c ∷ p) q (hc, h) = ground (arith, trim_right-append p q h)

pub trim_right_line : (p : Bytes) → All IsInline p → trim_right (p ++ crlf) ≡ p ++ []
unfolding trim_right
trim_right_line p h = trim_right-append p crlf h

pub read_lines-append :
    (p rest : Bytes)
    → All IsInline p
    → read_lines (p ++ (b'\r' ∷ b'\n' ∷ rest)) ≡ (p ++ crlf) ∷ read_lines rest
unfolding read_lines
read_lines-append [] rest h = refl
read_lines-append (c ∷ p) rest (hc, h) = ground (arith, read_lines-append p rest h)

pub cut-append :
    (c : ℕ) (p rest : Bytes) → All (λ x. x ≢ c) p → cut c (p ++ (c ∷ rest)) ≡ some (p, rest)
unfolding cut
cut-append c [] rest h = ground arith
cut-append c (x ∷ p) rest (hx, h) = ground (arith, cut-append c p rest h)

pub cut-eq_none : (c : ℕ) (p : Bytes) → All (λ x. x ≢ c) p → cut c p ≡ none
unfolding cut
cut-eq_none c [] h = refl
cut-eq_none c (x ∷ p) (hx, h) = ground (arith, cut-eq_none c p h)
