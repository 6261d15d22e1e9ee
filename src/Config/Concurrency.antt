-- ===== src/Config/Concurrency.antt =====
-- ol1n-vault/cmd/vault/main.go: the worker's slots and the client's connections come from one setting.
use ol1n_super_app.Base.{◌-◌, ℕ, ◌+◌, ◌/◌, ◌≤◌, ◌≡◌, List, ◌∷◌, ◌++◌, arith, leb, if◌then◌else◌}
use ol1n_super_app.Base.Ints.{ℤ, pos, negsuc, ◌+ℤ◌}
use ol1n_super_app.Nntp.Pool.{new_client, Caller}
use ol1n_super_app.Nntp.Pool.System.{System, Reach}
use ol1n_super_app.Nntp.Pool.Safety.{never_blocked, Progress}
use ol1n_super_app.Jobs.Worker.{new_worker}

-- Go's division by 2 rounds towards 0.
abbrev pub half : ℤ → ℤ
half (pos n) = pos (n / 2)
half (negsuc n) = if leb 1 n then negsuc ((n + 1) / 2 - 1) else pos 0

-- `NewWorker(queries, broker, cfg.NNTP.Connections/2+1)`
unfoldable pub main_worker : ℤ → ℕ
unfolding ◌+ℤ◌
main_worker connections = new_worker (half connections +ℤ pos 1)

main_worker-new_client : (k : ℤ) → main_worker k ≤ (new_client k).connections
unfolding main_worker new_client ◌+ℤ◌
main_worker-new_client (pos n) = ground arith
main_worker-new_client (negsuc n) = ground arith

-- Jobs never block on the pool, whatever NNTP_CONNECTIONS says: as many goroutines as the worker has
-- slots, each in at most one call of the client, reach no state in which one of them cannot take its
-- next step.
pub jobs_never_blocked :
    (k : ℤ) (n : ℕ) (s : System) (before after : List Caller) (l : Caller)
    → n ≤ main_worker k
    → Reach k n s
    → s.callers ≡ before ++ (l ∷ after)
    → Progress s.pool l
jobs_never_blocked k n s before after l few r at =
    never_blocked before after l (omega (arith, few, main_worker-new_client k)) r at
