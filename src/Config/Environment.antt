-- ===== src/Config/Environment.antt =====
-- What a variable that holds a number becomes.
use ol1n_super_app.Base.{
  ℕ, ◌-◌, ◌*◌, ◌^◌, ◌≤◌, ◌<◌, ◌≡◌, ◌↔◌, refl, some, [], ◌∷◌, arith, Bytes, codes,
}
use ol1n_super_app.Base.Ints.{ℤ, pos, int64}
use ol1n_super_app.Go.Numbers.{number, scan, format_nat, format_int}
use ol1n_super_app.Go.Numbers.RoundTrip.{
  StartsWithDigit, starts, format_nat-starts, scan-format_nat,
}
use ol1n_super_app.Config.{Env, lookup, atoi, atoi_digits, env_int, hour, hours, vault_config}

hours_iff : (n : ℕ) → (hours (pos n) ≡ pos (n * hour)) ↔ (n ≤ 2562047)
unfolding hours int64
hours_iff n = (λ e. ground arith, λ h. ground arith)

atoi-StartsWithDigit :
    (s : Bytes) (n : ℕ)
    → StartsWithDigit s
    → n < 2 ^ 63
    → scan 10 (2 ^ 64 - 1) s 0 ≡ number n
    → atoi s ≡ some (pos n)
unfolding atoi atoi_digits
atoi-StartsWithDigit [] n d h e = elim d [ ]
atoi-StartsWithDigit (c ∷ s) n (starts d) h e = ground arith

pub atoi-format_int : (n : ℕ) → n < 2 ^ 63 → atoi (format_int (pos n)) ≡ some (pos n)
unfolding format_int
atoi-format_int n h =
    atoi-StartsWithDigit (format_nat n) n (format_nat-starts n) h (scan-format_nat n (omega arith))

lookup-StartsWithDigit :
    (env : Env) (key s : Bytes) → env key ≡ some s → StartsWithDigit s → lookup env key ≡ some s
unfolding lookup
lookup-StartsWithDigit env key [] e d = elim d [ ]
lookup-StartsWithDigit env key (c ∷ s) e d = ground arith

-- A variable that holds the decimal text of an int is read as that int.
pub env_int-format_int :
    (env : Env) (key : Bytes) (fallback : ℤ) (n : ℕ)
    → env key ≡ some (format_int (pos n))
    → n < 2 ^ 63
    → env_int env key fallback ≡ pos n
unfolding env_int format_int
env_int-format_int env key fallback n e h =
    rw (lookup-StartsWithDigit env key (format_nat n) e (format_nat-starts n))
      (rw (atoi-format_int n h) refl)

-- If VAULT_FILES_TTL_HOURS is the decimal text of an int, not negative, the files live that many hours,
-- counted in nanoseconds, exactly when it is at most 2562047; a larger number overflows.
pub files_ttl_iff :
    (env : Env) (n : ℕ)
    → env (codes "VAULT_FILES_TTL_HOURS") ≡ some (format_int (pos n))
    → n < 2 ^ 63
    → ((vault_config env).files_ttl ≡ pos (n * hour)) ↔ (n ≤ 2562047)
unfolding vault_config
files_ttl_iff env n e h =
    rw (env_int-format_int env (codes "VAULT_FILES_TTL_HOURS") (pos 24) n e h) (hours_iff n)
