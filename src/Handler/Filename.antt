-- ===== src/Handler/Filename.antt =====
-- helpers.go: `sanitizeFilename`, and the test of `serveFile` on the name in the URL.
use ol1n_super_app.Base.{
  inl, inr, All-map, Bool-cases, ℕ, ◌≡◌, ◌≢◌, refl, Bool, false, ◌&&◌, ◌||◌, [], ◌∷◌, arith, ◌==◌,
  if◌then◌else◌, Bytes, codes, same, All, map,
}
use ol1n_super_app.Go.Strings.{is_nil, IsInline}
use ol1n_super_app.Go.Spaces.{trim_space, All-trim_space}

unfoldable pub contains : (ℕ → Bool) → Bytes → Bool
contains test [] = false
contains test (c ∷ cs) = test c || contains test cs

abbrev is_slash : ℕ → Bool
is_slash c = c == b'/'

-- `filepath.Base`: without the slashes at the end, what follows the last slash.
unfoldable pub trim_slashes : Bytes → Bytes
trim_slashes [] = []
trim_slashes (c ∷ cs) =
    let rest = trim_slashes cs in if is_slash c && is_nil rest then [] else c ∷ rest

unfoldable pub last_element : Bytes → Bytes
last_element [] = []
last_element (c ∷ cs) =
    let rest = last_element cs in
    if contains is_slash cs then rest else if is_slash c then cs else c ∷ cs

unfoldable pub base : Bytes → Bytes
unfolding trim_slashes last_element
base path =
    let name = last_element (trim_slashes path) in
    if is_nil path then codes "." else if is_nil name then codes "/" else name

-- The `Replacer`: each of its strings is one byte.
abbrev pub replaced : ℕ → ℕ
replaced c =
    if c == b'\n' || c == b'\r' || c == b'\t' || c == 0 || c == b'/' || c == b'\\' then b'_' else c

abbrev pub is_dots : Bytes → Bool
is_dots s = is_nil s || same s (codes ".") || same s (codes "..")

abbrev pub name_or_default : Bytes → Bytes
name_or_default s = if is_dots s then codes "upload.bin" else s

unfoldable pub sanitize_filename : Bytes → Bytes
sanitize_filename s = name_or_default (trim_space (map replaced (base s)))

-- `strings.ContainsAny(filename, "/\\")` and the names that are no file.
abbrev pub is_bad_filename : Bytes → Bool
is_bad_filename s = contains (λ c. c == b'/' || c == b'\\') s || is_dots s

-- What the `Replacer` leaves.
abbrev IsHarmless : ℕ → Type 0
IsHarmless c = IsInline c × (c ≢ b'/') × (c ≢ b'\\')

map-IsHarmless : (s : Bytes) → All IsHarmless (map replaced s)
map-IsHarmless [] = tt
map-IsHarmless (c ∷ s) = (ground arith, map-IsHarmless s)

harmless_contains :
    (s : Bytes) → All IsHarmless s → contains (λ c. c == b'/' || c == b'\\') s ≡ false
unfolding contains
harmless_contains [] h = refl
harmless_contains (c ∷ s) (hc, h) = ground (arith, harmless_contains s h)

name_or_default-IsHarmless :
    (s : Bytes)
    → All IsHarmless s
    → (is_bad_filename (name_or_default s) ≡ false) × All IsInline (name_or_default s)
unfolding contains same
name_or_default-IsHarmless s h = elim (Bool-cases (is_dots s)) [
  | inl e ↦ rw e (refl, ground arith)
  | inr e ↦
      rw (e, e) (rw (harmless_contains s h) refl, All-map IsHarmless IsInline s (λ c p. p.0) h)
]

-- Whatever name a client sends, the name it is stored under is one that `serveFile` accepts, and
-- has no line break, which is what a part's encoding asks of its name.
pub sanitize_filename_lem :
    (s : Bytes)
    → (is_bad_filename (sanitize_filename s) ≡ false) × All IsInline (sanitize_filename s)
unfolding sanitize_filename
sanitize_filename_lem s =
    name_or_default-IsHarmless _ (All-trim_space IsHarmless _ (map-IsHarmless (base s)))
