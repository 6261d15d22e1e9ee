-- ===== src/Nntp/Pool/Starvation.antt =====
-- client.go: `acquire` and `release` with one goroutine more than connections.
use ol1n_super_app.Base.{
  append-nil, ℕ, zero, suc, ◌+◌, ◌≤◌, ◌<◌, ◌≡◌, refl, ap, ◌∙◌, true, false, none, some, List, [],
  ◌∷◌, ◌++◌, arith, length, length-append, lt→ltb,
}
use ol1n_super_app.Base.Ints.{pos}
use ol1n_super_app.Nntp.Pool.{
  Event, Conn, Pool, new_client, Caller, outside, waiting, dialing, using, call, slot, dialed,
  returns, step,
}
use ol1n_super_app.Nntp.Pool.System.{System, turn, all_outside, start, Reach, here, later}

abbrev fresh : Conn
fresh = record { dead = false }

abbrev all_using : ℕ → List Caller
all_using zero = []
all_using (suc j) = using fresh ∷ all_using j

outside_snoc :
    (i : ℕ) (ls : List Caller) → all_outside i ++ (outside ∷ ls) ≡ all_outside (suc i) ++ ls
outside_snoc zero ls = refl
outside_snoc (suc i) ls = ap (◌∷◌ outside) (outside_snoc i ls)

abbrev pool_of : ℕ → List Conn → ℕ → Pool
pool_of size idle sema = record { connections = size; idle = idle; sema = sema }

-- One goroutine's step, the others before and after it.
move :
    {size n : ℕ} {p q : Pool} (before after : List Caller) (e : Event) (l : Caller) {l' : Caller}
    → step e p l ≡ some (q, l')
    → Reach (pos size) n (record { pool = p; callers = before ++ (l ∷ after) })
    → Reach (pos size) n (record { pool = q; callers = before ++ (l' ∷ after) })
move before after e l h r = later r (turn before after e l refl h)

enters :
    (size j : ℕ) (idle : List Conn)
    → j < size
    → step slot (pool_of size idle j) waiting ≡ some (pool_of size idle (suc j), dialing)
unfolding step
enters size j idle h = ground arith

-- A call of one goroutine while no connection is idle and a token is left.
connect :
    {size n j : ℕ} (before after : List Caller)
    → j < size
    → Reach
        (pos size)
        n
        (record { pool = pool_of size [] j; callers = before ++ (outside ∷ after) })
    → Reach
        (pos size)
        n
        (record { pool = pool_of size [] (suc j); callers = before ++ (using fresh ∷ after) })
unfolding step
connect {size} {j = j} before after h r = move before after dialed dialing refl (
    move before after slot waiting (enters size j [] h)
      (move before after call outside {l' = waiting} refl r))

-- All but one goroutine hold a connection each.
fill :
    (size i j : ℕ)
    → 1 ≤ size
    → i + j ≡ size
    → Reach
        (pos size)
        (suc size)
        (record { pool = pool_of size [] j; callers = all_outside (suc i) ++ all_using j })
unfolding new_client
fill size i zero h e =
    let e' : i ≡ size = omega arith in
    rw (append-nil (all_outside (suc i)), e')
      (let r : Reach (pos size) (suc size) (start (pos size) (suc size)) = here in
        rw (lt→ltb 0 size h) at r)
fill size i (suc j) h e =
    connect (all_outside (suc i)) (all_using j) (omega arith)
      (rw (outside_snoc (suc i) (all_using j)) (fill size (suc i) j h (omega arith)))

keeps :
    (size : ℕ) (idle : List Conn)
    → length idle < size
    → step (returns true) (pool_of size idle size) (using fresh)
      ≡ some (pool_of size (idle ++ (fresh ∷ [])) size, outside)
unfolding step
keeps size idle h = ground arith

-- They return their connections, one after the other, while the last goroutine waits.
drain :
    (size n i j : ℕ) (idle : List Conn)
    → length idle ≡ i
    → i + j ≡ size
    → Reach (pos size) n (record {
      pool = pool_of size idle size;
      callers = waiting ∷ (all_outside i ++ all_using j);
    })
    → (rest : List Conn) × (length rest ≡ size)
      × Reach
          (pos size)
          n
          (record { pool = pool_of size rest size; callers = waiting ∷ all_outside size })
drain size n i zero idle len e r =
    let e' : i ≡ size = omega arith in
    let all : all_outside i ≡ all_outside size = ap all_outside e' in
    (idle, len ∙ e', rw (← all) (rw (append-nil (all_outside i)) at r))
drain size n i (suc j) idle len e r =
    drain size n (suc i) j (idle ++ (fresh ∷ [])) (omega (arith, length-append idle (fresh ∷ [])))
      (omega arith)
      (rw (← outside_snoc i (all_using j)) (
        move (waiting ∷ all_outside i) (all_using j) (returns true) (using fresh)
          (keeps size idle (omega arith)) r))

-- For every positive number of connections, one goroutine more than connections reaches a state in
-- which it waits for a token and cannot get one, every other goroutine has returned, and all the
-- connections lie idle: `acquire` does not see a connection that is released while it waits.
pub waiter_starves :
    (size : ℕ)
    → 1 ≤ size
    → (s : System) × Reach (pos size) (suc size) s
      × (s.callers ≡ waiting ∷ all_outside size)
      × (length s.pool.idle ≡ size)
      × (step slot s.pool waiting ≡ none)
unfolding step
waiter_starves size h =
    let full : Reach (pos size) (suc size)
        (record { pool = pool_of size [] size; callers = outside ∷ all_using size }) =
      fill size 0 size h (omega arith) in
    let (rest, len, r) =
      drain size (suc size) 0 size [] refl (omega arith)
        (move [] (all_using size) call outside {l' = waiting} refl full) in
    (_, r, refl, len, ground arith)
