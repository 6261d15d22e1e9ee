-- ===== src/Tests/Pool.antt =====
-- ol1n-vault/internal/nntp/client.go: the theorems on the pool at concrete inputs.
use ol1n_super_app.Base.{◌+◌, ◌≤◌, ◌≡◌, refl, false, none, [], ◌∷◌, arith, length}
use ol1n_super_app.Base.Ints.{pos}
use ol1n_super_app.Nntp.Pool.{
  new_client, outside, waiting, dialing, using, call, slot, dialed, step,
}
use ol1n_super_app.Nntp.Pool.System.{System, turn, all_outside, Reach, here, later, holds, tally}
use ol1n_super_app.Nntp.Pool.Safety.{connections_bounded, never_blocked, Progress}
use ol1n_super_app.Nntp.Pool.Starvation.{waiter_starves}

-- One of two goroutines has dialed.
abbrev pub connected : System
connected = record {
  pool = record { connections = 2; idle = []; sema = 1 };
  callers = using (record { dead = false }) ∷ outside ∷ [];
}

pub connected-Reach : Reach (pos 2) 2 connected
unfolding step new_client
connected-Reach =
    later
      (later (later here (turn [] (outside ∷ []) call outside {l' = waiting} refl refl))
        (turn [] (outside ∷ []) slot waiting {l' = dialing} refl refl))
      (turn [] (outside ∷ []) dialed dialing refl refl)

connections_bounded_example :
    (connected.pool.sema ≡ length connected.pool.idle + tally holds connected.callers)
    × (connected.pool.sema ≤ (new_client (pos 2)).connections)
connections_bounded_example = connections_bounded connected-Reach

few_goroutines : 2 ≤ (new_client (pos 2)).connections
unfolding new_client
few_goroutines = omega arith

never_blocked_example : Progress connected.pool outside
never_blocked_example =
    never_blocked (using (record { dead = false }) ∷ []) [] outside few_goroutines connected-Reach
      refl

waiter_starves_example :
    (s : System) × Reach (pos 2) 3 s
    × (s.callers ≡ waiting ∷ all_outside 2)
    × (length s.pool.idle ≡ 2)
    × (step slot s.pool waiting ≡ none)
waiter_starves_example = waiter_starves 2 (omega arith)
