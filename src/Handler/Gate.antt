-- ===== src/Handler/Gate.antt =====
-- middleware.go: `APIKey` and `SkipPrefixes`, and the prefixes that cmd/vault/main.go gives them.
use ol1n_super_app.Base.{
  ◌≡◌, refl, ◌⊎◌, inl, inr, Bool, true, false, Option, none, some, List, [], ◌∷◌, ◌++◌, arith,
  if◌then◌else◌, Bytes, codes, same, same_iff,
}
use ol1n_super_app.Go.Strings.{is_nil, strip_prefix}

-- Whether the request reaches the next handler; otherwise it is answered 401. `got` is the header
-- X-Vault-Key, empty where it is missing.
abbrev pub api_key : Bytes → Bytes → Bool
api_key expected got = if is_nil expected then true else same got expected

abbrev pub has_prefix : Bytes → Bytes → Bool
has_prefix s p = elim (strip_prefix p s) [ none ↦ false | some t ↦ true ]

-- The loop over the prefixes, in front of the wrapped check.
unfoldable pub skip_prefixes : Bool → Bytes → List Bytes → Bool
skip_prefixes wrapped path [] = wrapped
skip_prefixes wrapped path (p ∷ ps) =
    let rest = skip_prefixes wrapped path ps in if has_prefix path p then true else rest

abbrev pub public_prefixes : List Bytes
public_prefixes = codes "/upload/payment-confirm" ∷ codes "/files/" ∷ codes "/health" ∷ []

unfoldable pub gate : Bytes → Bytes → Bytes → Bool
unfolding skip_prefixes
gate expected path got = skip_prefixes (api_key expected got) path public_prefixes

strip_prefix-append : (p s t : Bytes) → strip_prefix p s ≡ some t → s ≡ p ++ t
unfolding strip_prefix
strip_prefix-append [] s t h = cc
strip_prefix-append (c ∷ p) [] t h = cc
strip_prefix-append (c ∷ p) (d ∷ s) t h = ground (arith, strip_prefix-append p s t)

-- The path goes on from one of the prefixes.
abbrev pub Extends : Bytes → List Bytes → Type 0
Extends path [] = ⊥
Extends path (p ∷ ps) = ((t : Bytes) × (path ≡ p ++ t)) ⊎ Extends path ps

skip_prefixes-Extends :
    (wrapped : Bool) (path : Bytes) (ps : List Bytes)
    → skip_prefixes wrapped path ps ≡ true
    → (wrapped ≡ true) ⊎ Extends path ps
unfolding skip_prefixes
skip_prefixes-Extends wrapped path [] h = inl h
skip_prefixes-Extends wrapped path (p ∷ ps) h =
    matched (strip_prefix p path) refl (λ r. skip_prefixes-Extends wrapped path ps r) h
  where
    matched :
        (o : Option Bytes)
        → strip_prefix p path ≡ o
        → (skip_prefixes wrapped path ps ≡ true → (wrapped ≡ true) ⊎ Extends path ps)
        → (if elim o [ none ↦ false | some t ↦ true ] then true else skip_prefixes wrapped path ps)
          ≡ true
        → (wrapped ≡ true) ⊎ Extends path (p ∷ ps)
    matched none e rest r = elim (rest r) [ inl w ↦ inl w | inr x ↦ inr (inr x) ]
    matched (some t) e rest r = inr (inl (t, strip_prefix-append p path t e))

-- A request that passes the gate carries the configured key, unless no key is configured or its
-- path goes on from one of the public prefixes.
pub gate_lem :
    (expected path got : Bytes)
    → gate expected path got ≡ true
    → (expected ≡ []) ⊎ ((got ≡ expected) ⊎ Extends path public_prefixes)
unfolding gate
gate_lem [] path got h = inl refl
gate_lem (k ∷ ks) path got h =
    elim (skip_prefixes-Extends (same got (k ∷ ks)) path public_prefixes h) [
      | inl e ↦ inr (inl ((same_iff got (k ∷ ks)).0 e))
      | inr x ↦ inr (inr x)
    ]
