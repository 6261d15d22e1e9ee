-- ===== src/Go/Spaces.antt =====
-- `strings.TrimSpace` over the UTF-8 text of a string: the white space of Unicode, at either end.
pub mod Plain
use ol1n_super_app.Base.{
  sym, inl, inr, ◌==◌, Bool-cases, ◌∙◌, Option-cases, subst, ℕ, zero, suc, ◌≡◌, refl, Option, none,
  some, List, [], ◌∷◌, ◌++◌, Bytes, All, All-append, length, map,
}
use ol1n_super_app.Go.Strings.{strip_prefix}

-- U+0009 to U+000D, U+0020, U+0085, U+00A0, U+1680, U+2000 to U+200A, U+2028, U+2029, U+202F,
-- U+205F and U+3000.
abbrev pub spaces : List Bytes
spaces =
    (0x09 ∷ [])
    ∷ (0x0A ∷ [])
    ∷ (0x0B ∷ [])
    ∷ (0x0C ∷ [])
    ∷ (0x0D ∷ [])
    ∷ (0x20 ∷ [])
    ∷ (0xC2 ∷ 0x85 ∷ [])
    ∷ (0xC2 ∷ 0xA0 ∷ [])
    ∷ (0xE1 ∷ 0x9A ∷ 0x80 ∷ [])
    ∷ (0xE2 ∷ 0x80 ∷ 0x80 ∷ [])
    ∷ (0xE2 ∷ 0x80 ∷ 0x81 ∷ [])
    ∷ (0xE2 ∷ 0x80 ∷ 0x82 ∷ [])
    ∷ (0xE2 ∷ 0x80 ∷ 0x83 ∷ [])
    ∷ (0xE2 ∷ 0x80 ∷ 0x84 ∷ [])
    ∷ (0xE2 ∷ 0x80 ∷ 0x85 ∷ [])
    ∷ (0xE2 ∷ 0x80 ∷ 0x86 ∷ [])
    ∷ (0xE2 ∷ 0x80 ∷ 0x87 ∷ [])
    ∷ (0xE2 ∷ 0x80 ∷ 0x88 ∷ [])
    ∷ (0xE2 ∷ 0x80 ∷ 0x89 ∷ [])
    ∷ (0xE2 ∷ 0x80 ∷ 0x8A ∷ [])
    ∷ (0xE2 ∷ 0x80 ∷ 0xA8 ∷ [])
    ∷ (0xE2 ∷ 0x80 ∷ 0xA9 ∷ [])
    ∷ (0xE2 ∷ 0x80 ∷ 0xAF ∷ [])
    ∷ (0xE2 ∷ 0x81 ∷ 0x9F ∷ [])
    ∷ (0xE3 ∷ 0x80 ∷ 0x80 ∷ [])
    ∷ []

unfoldable pub reverse : Bytes → Bytes
reverse [] = []
reverse (c ∷ cs) = reverse cs ++ (c ∷ [])

abbrev pub first_of : Option Bytes → Option Bytes → Option Bytes
first_of none o = o
first_of (some t) o = some t

-- One space less at the front.
unfoldable pub strip_any : List Bytes → Bytes → Option Bytes
strip_any [] s = none
strip_any (p ∷ ps) s = first_of (strip_prefix p s) (strip_any ps s)

abbrev pub or_stop : Bytes → (Bytes → Bytes) → Option Bytes → Bytes
or_stop s next none = s
or_stop s next (some t) = next t

-- On fuel; each turn removes a byte at least, so the length is enough.
unfoldable pub strip_all : List Bytes → ℕ → Bytes → Bytes
strip_all ps zero s = s
strip_all ps (suc n) s = or_stop s (strip_all ps n) (strip_any ps s)

unfoldable pub trim_space : Bytes → Bytes
unfolding strip_all reverse
trim_space s =
    let front = strip_all spaces (length s) s in
    reverse (strip_all (map reverse spaces) (length front) (reverse front))

module _ {ℓ} (P : ℕ → Type ℓ) where
  pub All-reverse : (s : Bytes) → All P s → All P (reverse s)
  unfolding reverse
  All-reverse [] h = tt
  All-reverse (c ∷ s) (hc, h) = All-append P (reverse s) (c ∷ []) (All-reverse s h) (hc, tt)

  All-strip_prefix : (p s t : Bytes) → strip_prefix p s ≡ some t → All P s → All P t
  unfolding strip_prefix
  All-strip_prefix [] s t e h = let e' : s ≡ t = cc in subst (All P) e' h
  All-strip_prefix (c ∷ p) [] t e h = cc
  All-strip_prefix (c ∷ p) (d ∷ s) t e h = elim (Bool-cases (c == d)) [
    | inl q ↦ All-strip_prefix p s t (rw q at e) h.1
    | inr q ↦ let e' = rw q at e in cc
  ]

  All-strip_any : (ps : List Bytes) (s t : Bytes) → strip_any ps s ≡ some t → All P s → All P t
  unfolding strip_any
  All-strip_any [] s t e h = cc
  All-strip_any (p ∷ ps) s t e h =
      stripped (λ r. All-strip_any ps s t r h) (strip_prefix p s) refl e
    where
      stripped :
          (strip_any ps s ≡ some t → All P t)
          → (o : Option Bytes) → strip_prefix p s ≡ o
          → first_of o (strip_any ps s) ≡ some t
          → All P t
      stripped rest none q r = rest r
      stripped rest (some u) q r = All-strip_prefix p s t (q ∙ r) h

  All-strip_all : (ps : List Bytes) (n : ℕ) (s : Bytes) → All P s → All P (strip_all ps n s)
  unfolding strip_all
  All-strip_all ps zero s h = h
  All-strip_all ps (suc n) s h = elim (Option-cases (strip_any ps s)) [
    | inl q ↦ subst (λ o. All P (or_stop s (strip_all ps n) o)) (sym q) h
    | inr (t, q) ↦
        subst (λ o. All P (or_stop s (strip_all ps n) o)) (sym q)
          (All-strip_all ps n t (All-strip_any ps s t q h))
  ]

  -- What holds of every byte holds of every byte that is left.
  pub All-trim_space : (s : Bytes) → All P s → All P (trim_space s)
  unfolding trim_space
  All-trim_space s h =
      let front = strip_all spaces (length s) s in
      All-reverse (strip_all (map reverse spaces) (length front) (reverse front)) (
        All-strip_all (map reverse spaces) (length front) (reverse front)
          (All-reverse front (All-strip_all spaces (length s) s h)))
