-- ===== src/Tests/Config.antt =====
-- ol1n-vault/internal/config and cmd/vault: the theorems at concrete inputs.
use ol1n_super_app.Base.{
  false, ◌*◌, ◌≤◌, ◌≡◌, ◌≢◌, ◌⊎◌, ◌↔◌, refl, some, List, [], ◌∷◌, Bytes, codes, arith,
}
use ol1n_super_app.Base.Ints.{pos, ◌+ℤ◌}
use ol1n_super_app.Go.Numbers.{format_int}
use ol1n_super_app.Config.{Env, hour, vault_config, config_of, loaded, missing, load}
use ol1n_super_app.Config.Environment.{files_ttl_iff}
use ol1n_super_app.Config.Required.{Unset, required, load-Unset}
use ol1n_super_app.Config.Concurrency.{main_worker, jobs_never_blocked}
use ol1n_super_app.Nntp.Pool.{outside, using}
use ol1n_super_app.Nntp.Pool.Safety.{Progress}
use ol1n_super_app.Tests.Pool.{connected, connected-Reach}

abbrev a_day : Env
a_day key = some (codes "24")

is_a_day : a_day (codes "VAULT_FILES_TTL_HOURS") ≡ some (format_int (pos 24))
unfolding format_int
is_a_day = refl

files_ttl_iff_example : ((vault_config a_day).files_ttl ≡ pos (24 * hour)) ↔ (24 ≤ 2562047)
files_ttl_iff_example = files_ttl_iff a_day 24 is_a_day (omega arith)

-- A price is the text that it was read from.
load-Unset_example :
    (names : List Bytes) × Unset a_day required names
    × (((load some (codes "0.50") a_day ≡ loaded (config_of some (codes "0.50") a_day))
          × (names ≡ []))
        ⊎ ((load some (codes "0.50") a_day ≡ missing names) × (names ≢ [])))
load-Unset_example = load-Unset some (codes "0.50") a_day

two_slots : 2 ≤ main_worker (pos 2)
unfolding main_worker ◌+ℤ◌
two_slots = omega arith

jobs_never_blocked_example : Progress connected.pool outside
jobs_never_blocked_example =
    jobs_never_blocked (pos 2) 2 connected (using (record { dead = false }) ∷ []) [] outside
      two_slots connected-Reach refl
