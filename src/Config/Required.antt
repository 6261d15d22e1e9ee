-- ===== src/Config/Required.antt =====
-- The variables that `Load` wants.
use ol1n_super_app.Base.{
  ◌≡◌, ◌≢◌, ◌⊎◌, refl, true, false, Option, some, List, [], ◌∷◌, arith, Bytes, codes, Option-cases,
  inl, inr,
}
use ol1n_super_app.Go.Strings.{is_nil}
use ol1n_super_app.Config.{
  Env, lookup, env_str, missing_if, Config, loaded, missing, config_of, validated, validate, load,
  nntp_config, now_payments_config,
}

-- The variable is there and not empty.
abbrev pub IsGiven : Env → Bytes → Type 0
IsGiven env key = (v : Bytes) × (env key ≡ some v) × (v ≢ [])

abbrev pub required : List Bytes
required =
    codes "NNTP_HOST"
    ∷ codes "NNTP_USER"
    ∷ codes "NNTP_PASS"
    ∷ codes "NOWPAYMENTS_API_KEY"
    ∷ codes "NOWPAYMENTS_IPN_SECRET"
    ∷ []

-- The keys that are not set, in their order.
pub data Unset (env : Env) : List Bytes → List Bytes → Type 0 where
  end : Unset env [] []
  skip : {k : Bytes} {ks us : List Bytes} → IsGiven env k → Unset env ks us → Unset env (k ∷ ks) us
  keep :
      {k : Bytes} {ks us : List Bytes}
      → ¬ IsGiven env k
      → Unset env ks us
      → Unset env (k ∷ ks) (k ∷ us)

env_str-cases :
    (env : Env) (key : Bytes)
    → ((is_nil (env_str env key []) ≡ true) × (¬ IsGiven env key))
      ⊎ ((is_nil (env_str env key []) ≡ false) × IsGiven env key)
unfolding env_str lookup
env_str-cases env key = elim (Option-cases (env key)) [
  | inl e ↦ inl (ground arith, λ (v, e', h). ground arith)
  | inr ([], e) ↦ inl (ground arith, λ (v, e', h). ground arith)
  | inr (c ∷ v, e) ↦ inr (ground arith, (c ∷ v, e, λ h. cc))
]

missing_names : Env → List Bytes → List Bytes
missing_names env [] = []
missing_names env (k ∷ ks) = missing_if (is_nil (env_str env k [])) k (missing_names env ks)

missing_names-Unset : (env : Env) (ks : List Bytes) → Unset env ks (missing_names env ks)
unfolding missing_names
missing_names-Unset env [] = end
missing_names-Unset env (k ∷ ks) = elim (env_str-cases env k) [
  | inl (e, h) ↦ rw e (keep h (missing_names-Unset env ks))
  | inr (e, h) ↦ rw e (skip h (missing_names-Unset env ks))
]

validated-cases {ℓ} :
    {F : Type ℓ} (c : Config F) (ns : List Bytes)
    → ((validated c ns ≡ loaded c) × (ns ≡ [])) ⊎ ((validated c ns ≡ missing ns) × (ns ≢ []))
validated-cases c [] = inl (refl, refl)
validated-cases c (n ∷ ns) = inr (refl, λ e. cc)

-- The settings are loaded exactly when NNTP_HOST, NNTP_USER, NNTP_PASS, NOWPAYMENTS_API_KEY and
-- NOWPAYMENTS_IPN_SECRET are all set and not empty; otherwise the error names those that are not, in
-- this order, and no other variable.
pub load-Unset {ℓ} :
    {F : Type ℓ} (parse_float : Bytes → Option F) (default_price : F) (env : Env)
    → (names : List Bytes) × Unset env required names
      × (((load parse_float default_price env ≡ loaded (config_of parse_float default_price env))
            × (names ≡ []))
          ⊎ ((load parse_float default_price env ≡ missing names) × (names ≢ [])))
unfolding load validate config_of nntp_config now_payments_config missing_names
load-Unset parse_float default_price env = (
  missing_names env required,
  missing_names-Unset env required,
  validated-cases (config_of parse_float default_price env) (missing_names env required),
)
