-- ===== src/Go/Spaces/Plain.antt =====
-- `strings.TrimSpace` of a text without white space.
use ol1n_super_app.Base.{
  ℕ, zero, suc, ◌≤◌, ◌<◌, ◌⊎◌, ◌≡◌, refl, ap, sym, ◌∙◌, none, List, [], ◌∷◌, ◌++◌, append-nil,
  append_assoc, arith, Bytes, All, length, map,
}
use ol1n_super_app.Go.Strings.{strip_prefix}
use ol1n_super_app.Go.Spaces.{spaces, reverse, strip_any, strip_all, trim_space, All-reverse}

-- A visible ASCII character.
abbrev pub IsVisible : ℕ → Type 0
IsVisible c = (0x21 ≤ c) × (c ≤ 0x7E)

-- A sequence that does not start with one.
abbrev StartsHidden : Bytes → Type 0
StartsHidden [] = ⊥
StartsHidden (c ∷ cs) = (c < 0x21) ⊎ (0x7E < c)

strip_prefix-hidden : (p s : Bytes) → StartsHidden p → All IsVisible s → strip_prefix p s ≡ none
unfolding strip_prefix
strip_prefix-hidden [] s h v = absurd h
strip_prefix-hidden (c ∷ p) [] h v = refl
strip_prefix-hidden (c ∷ p) (d ∷ s) h v = ground arith

strip_any-hidden :
    (ps : List Bytes) (s : Bytes) → All StartsHidden ps → All IsVisible s → strip_any ps s ≡ none
unfolding strip_any
strip_any-hidden [] s h v = refl
strip_any-hidden (p ∷ ps) s (hp, h) v =
    rw (strip_prefix-hidden p s hp v) (strip_any-hidden ps s h v)

strip_all-hidden :
    (ps : List Bytes) (n : ℕ) (s : Bytes)
    → All StartsHidden ps
    → All IsVisible s
    → strip_all ps n s ≡ s
unfolding strip_all
strip_all-hidden ps zero s h v = refl
strip_all-hidden ps (suc n) s h v = rw (strip_any-hidden ps s h v) refl

reverse-append : (s t : Bytes) → reverse (s ++ t) ≡ reverse t ++ reverse s
unfolding reverse
reverse-append [] t = sym (append-nil (reverse t))
reverse-append (c ∷ s) t =
    ap (λ x. x ++ (c ∷ [])) (reverse-append s t) ∙ append_assoc (reverse t) (reverse s) (c ∷ [])

reverse-reverse : (s : Bytes) → reverse (reverse s) ≡ s
unfolding reverse
reverse-reverse [] = refl
reverse-reverse (c ∷ s) = reverse-append (reverse s) (c ∷ []) ∙ ap (λ x. c ∷ x) (reverse-reverse s)

spaces_hidden : All StartsHidden spaces
spaces_hidden = ground arith

reversed_hidden : All StartsHidden (map reverse spaces)
unfolding reverse
reversed_hidden = ground arith

pub trim_space-visible : (s : Bytes) → All IsVisible s → trim_space s ≡ s
unfolding trim_space
trim_space-visible s v =
    let back = λ (f : Bytes). reverse (strip_all (map reverse spaces) (length f) (reverse f)) in
    ap back (strip_all-hidden spaces (length s) s spaces_hidden v)
    ∙ ap reverse (
        strip_all-hidden (map reverse spaces) (length s) (reverse s) reversed_hidden
          (All-reverse IsVisible s v))
    ∙ reverse-reverse s
