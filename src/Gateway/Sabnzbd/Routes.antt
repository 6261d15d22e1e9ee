-- ===== src/Gateway/Sabnzbd/Routes.antt =====
-- What the service reads from the URLs that it is asked.
use ol1n_super_app.Base.{
  ℕ, ◌+◌, ◌*◌, ◌/◌, ◌%◌, ◌<◌, ◌≡◌, ◌≢◌, refl, ap, ◌∙◌, ap₂, Bool-cases, inl, inr, false, Option,
  none, some, List, [], ◌∷◌, ◌++◌, map, ◌==◌, if◌then◌else◌, Bytes, arith, All,
}
use ol1n_super_app.Go.Hex.{hex_value}
use ol1n_super_app.Go.Strings.{cut}
use ol1n_super_app.Go.Query.{is_unreserved, upper_hex, escape_byte}

-- The meaning of an escaped text: a byte stands for itself, `+` for a space, `%` for the byte of two digits.
pub data Place : Type 0 where
  text percent : Place
  half : ℕ → Place

abbrev digit : ℕ → ℕ
digit b = elim (hex_value b) [ none ↦ 0 | some v ↦ v ]

abbrev place_after : Place → ℕ → Place
place_after text b = if b == b'%' then percent else text
place_after percent b = half (digit b)
place_after (half h) b = text

abbrev read_byte : Place → ℕ → Bytes
read_byte text b = if b == b'%' then [] else if b == b'+' then b' ' ∷ [] else b ∷ []
read_byte percent b = []
read_byte (half h) b = (h * 16 + digit b) ∷ []

unfoldable pub unescape : Place → Bytes → Bytes
unescape p [] = []
unescape p (b ∷ bs) = read_byte p b ++ unescape (place_after p b) bs

abbrev onto_head : ℕ → List Bytes → List Bytes
onto_head b [] = (b ∷ []) ∷ []
onto_head b (p ∷ ps) = (b ∷ p) ∷ ps

unfoldable pub split_on : ℕ → Bytes → List Bytes
split_on c [] = [] ∷ []
split_on c (b ∷ bs) = let rest = split_on c bs in if b == c then [] ∷ rest else onto_head b rest

abbrev pub pair_of : Bytes → Option (Bytes × Bytes) → Bytes × Bytes
pair_of piece none = (unescape text piece, [])
pair_of piece (some (name, value)) = (unescape text name, unescape text value)

abbrev pub read_pair : Bytes → Bytes × Bytes
read_pair piece = pair_of piece (cut b'=' piece)

abbrev pub with_query : Option (Bytes × Bytes) → Option (Bytes × List (Bytes × Bytes))
with_query none = none
with_query (some (path, query)) = some (path, map read_pair (split_on b'&' query))

-- The path of a URL and the parameters behind its first question mark.
abbrev pub read_url : Bytes → Option (Bytes × List (Bytes × Bytes))
read_url url = with_query (cut b'?' url)

-- A byte of an escaped text.
abbrev pub IsSafe : ℕ → Type 0
IsSafe b = (b ≢ b'&') × (b ≢ b'=')

digit-upper_hex : (d : ℕ) → d < 16 → digit (upper_hex d) ≡ d
unfolding hex_value
digit-upper_hex d h = ground arith

pub unescape-escape_byte :
    (b : ℕ) (rest : Bytes)
    → b < 256
    → unescape text (escape_byte b ++ rest) ≡ b ∷ unescape text rest
unfolding unescape escape_byte
unescape-escape_byte b rest h = elim (Bool-cases (b == b' ')) [
  | inl e ↦ let at : 32 ≡ b = ground (arith, e) in rw e (ap (λ x. x ∷ unescape text rest) at)
  | inr e ↦ elim (Bool-cases (is_unreserved b)) [
    | inl e' ↦
        let no_percent : (b == b'%') ≡ false = ground (arith, e') in
        let no_plus : (b == b'+') ≡ false = ground (arith, e') in
        rw (e, e', no_percent, no_plus) refl
    | inr e' ↦
        let high = digit-upper_hex (b / 16) (omega arith) in
        let low = digit-upper_hex (b % 16) (omega arith) in
        rw (e, e')
          (ap₂ (λ x y. (x * 16 + y) ∷ unescape text rest) high low
            ∙ ap (λ x. x ∷ unescape text rest) (omega arith))
  ]
]

upper_hex-IsSafe : (d : ℕ) → d < 16 → IsSafe (upper_hex d)
upper_hex-IsSafe d h = (ground arith, ground arith)

pub escape_byte-IsSafe : (b : ℕ) → b < 256 → All IsSafe (escape_byte b)
unfolding escape_byte
escape_byte-IsSafe b h = elim (Bool-cases (b == b' ')) [
  | inl e ↦ rw e (ground arith)
  | inr e ↦ elim (Bool-cases (is_unreserved b)) [
    | inl e' ↦ rw (e, e') (((ground (arith, e'), ground (arith, e')), tt))
    | inr e' ↦
        rw (e, e')
          (
            ground arith,
            (
              upper_hex-IsSafe (b / 16) (omega arith),
              (upper_hex-IsSafe (b % 16) (omega arith), tt),
            ),
          )
  ]
]

pub split_on-append :
    (c : ℕ) (p rest : Bytes)
    → All (λ b. b ≢ c) p
    → split_on c (p ++ (c ∷ rest)) ≡ p ∷ split_on c rest
unfolding split_on
split_on-append c [] rest h = ground arith
split_on-append c (b ∷ p) rest (hb, h) = ground (arith, split_on-append c p rest h)

pub split_on-one : (c : ℕ) (p : Bytes) → All (λ b. b ≢ c) p → split_on c p ≡ p ∷ []
unfolding split_on
split_on-one c [] h = refl
split_on-one c (b ∷ p) (hb, h) = ground (arith, split_on-one c p h)
