-- ===== src/Nntp/Pool/Safety.antt =====
-- What holds in every reachable state of the pool.
use ol1n_super_app.Base.{
  ◌≢◌, ℕ, zero, suc, ◌+◌, ◌≤◌, ◌<◌, ◌≡◌, refl, ap, ◌∙◌, Bool, Option, none, some, List, [], ◌∷◌,
  ◌++◌, arith, length, length-append,
}
use ol1n_super_app.Base.Ints.{ℤ}
use ol1n_super_app.Nntp.Pool.{
  Pool, new_client, Caller, outside, waiting, dialing, using, Event, call, slot, dial_failed,
  returns, step,
}
use ol1n_super_app.Nntp.Pool.System.{
  System, Step, turn, all_outside, start, Reach, here, later, holds, waits, tally, tally-append,
}

pub record Inv (cap n : ℕ) (s : System) : Type 0 where
  pub counted : s.pool.sema ≡ length s.pool.idle + tally holds s.callers
  pub capacity : s.pool.connections ≡ cap
  pub bounded : s.pool.sema ≤ cap
  pub crew : length s.callers ≡ n
  pub pending : s.pool.sema + tally waits s.callers ≤ n

-- What one step does to the numbers of the invariant; `h` and `w` count the other goroutines.
record Fits (cap n h w : ℕ) (p : Pool) (l : Caller) : Type 0 where
  counted : p.sema ≡ length p.idle + (holds l + h)
  capacity : p.connections ≡ cap
  bounded : p.sema ≤ cap
  pending : p.sema + (waits l + w) ≤ n

step-Fits :
    (cap n h w : ℕ) (e : Event) (p : Pool) (l : Caller) {p' : Pool} {l' : Caller}
    → h + w + 1 ≤ n
    → step e p l ≡ some (p', l')
    → Fits cap n h w p l
    → Fits cap n h w p' l'
unfolding step
step-Fits cap n h w call p outside r e f = ground arith
step-Fits cap n h w (returns keep) p (using c) r e f = ground (arith, length-append p.idle (c ∷ []))
step-Fits cap n h w e p l r q f = ground arith

tally_room : (ls : List Caller) → tally holds ls + tally waits ls ≤ length ls
unfolding tally
tally_room [] = omega arith
tally_room (outside ∷ ls) = omega (arith, tally_room ls)
tally_room (waiting ∷ ls) = omega (arith, tally_room ls)
tally_room (dialing ∷ ls) = omega (arith, tally_room ls)
tally_room (using c ∷ ls) = omega (arith, tally_room ls)

tally_outside : (w : Caller → ℕ) (n : ℕ) → w outside ≡ 0 → tally w (all_outside n) ≡ 0
unfolding tally
tally_outside w zero h = refl
tally_outside w (suc n) h = omega (arith, tally_outside w n h)

length-all_outside : (n : ℕ) → length (all_outside n) ≡ n
length-all_outside zero = refl
length-all_outside (suc n) = ap suc (length-all_outside n)

start-Inv : (k : ℤ) (n : ℕ) → Inv (new_client k).connections n (start k n)
unfolding new_client
start-Inv k n = record {
  counted = omega (arith, tally_outside holds n refl);
  capacity = refl;
  bounded = omega arith;
  crew = length-all_outside n;
  pending = omega (arith, tally_outside waits n refl);
}

length_turn :
    (before : List Caller) (l : Caller) (after : List Caller)
    → length (before ++ (l ∷ after)) ≡ length (before ++ after) + 1
length_turn before l after =
    omega (arith, length-append before (l ∷ after), length-append before after)

Step-Inv : {cap n : ℕ} {s t : System} → Step s t → Inv cap n s → Inv cap n t
Step-Inv {cap} {n} {s} (turn before after e l {l' = l'} {p = p} at q) inv = record {
  counted = omega (arith, held', f'.counted);
  capacity = f'.capacity;
  bounded = f'.bounded;
  crew = omega (arith, size, length_turn before l' after);
  pending = omega (arith, waited', f'.pending);
}
  where
    others : List Caller
    others = before ++ after

    size : length others + 1 ≡ n
    size = omega (arith, inv.crew, ap length at, length_turn before l after)

    held : tally holds s.callers ≡ holds l + tally holds others
    held = ap (tally holds) at ∙ tally-append holds before l after

    waited : tally waits s.callers ≡ waits l + tally waits others
    waited = ap (tally waits) at ∙ tally-append waits before l after

    held' : tally holds (before ++ (l' ∷ after)) ≡ holds l' + tally holds others
    held' = tally-append holds before l' after

    waited' : tally waits (before ++ (l' ∷ after)) ≡ waits l' + tally waits others
    waited' = tally-append waits before l' after

    f : Fits cap n (tally holds others) (tally waits others) s.pool l
    f = record {
      counted = omega (arith, inv.counted, held);
      capacity = inv.capacity;
      bounded = inv.bounded;
      pending = omega (arith, inv.pending, waited);
    }

    f' : Fits cap n (tally holds others) (tally waits others) p l'
    f' =
        step-Fits cap n (tally holds others) (tally waits others) e s.pool l
          (omega (arith, size, tally_room others)) q f

pub Reach-Inv : {k : ℤ} {n : ℕ} {s : System} → Reach k n s → Inv (new_client k).connections n s
Reach-Inv {k} {n} here = start-Inv k n
Reach-Inv (later r st) = Step-Inv st (Reach-Inv r)

-- In every reachable state the tokens taken are the idle connections and the connections dialed or
-- in use, and there are at most as many as the client was configured for (4 where the
-- configuration is not positive).
pub connections_bounded :
    {k : ℤ} {n : ℕ} {s : System}
    → Reach k n s
    → (s.pool.sema ≡ length s.pool.idle + tally holds s.callers)
      × (s.pool.sema ≤ (new_client k).connections)
connections_bounded r = ((Reach-Inv r).counted, (Reach-Inv r).bounded)

-- The goroutine can go on, whatever the network answers.
abbrev pub Progress : Pool → Caller → Type 0
Progress p outside = (q : Pool × Caller) × (step call p outside ≡ some q)
Progress p waiting = (q : Pool × Caller) × (step slot p waiting ≡ some q)
Progress p dialing = (q : Pool × Caller) × (step dial_failed p dialing ≡ some q)
Progress p (using c) =
    (keep : Bool) → (q : Pool × Caller) × (step (returns keep) p (using c) ≡ some q)

ne-none_of {ℓ} : {A : Type ℓ} (o : Option A) → o ≢ none → (a : A) × (o ≡ some a)
ne-none_of none h = absurd (h refl)
ne-none_of (some a) h = (a, refl)

Progress-of :
    (p : Pool) (l : Caller)
    → length p.idle + holds l ≤ p.sema
    → (waits l ≡ 1 → p.sema < p.connections)
    → Progress p l
unfolding step
Progress-of p outside h k = ne-none_of (step call p outside) (λ e. ground arith)
Progress-of p waiting h k = ne-none_of (step slot p waiting) (λ e. ground arith)
Progress-of p dialing h k = ne-none_of (step dial_failed p dialing) (λ e. ground arith)
Progress-of p (using c) h k =
    λ keep. ne-none_of (step (returns keep) p (using c)) (λ e. ground arith)

-- With at most as many goroutines as connections nobody ever blocks: in every reachable state each
-- one can take its next step.
pub never_blocked :
    {k : ℤ} {n : ℕ} {s : System} (before after : List Caller) (l : Caller)
    → n ≤ (new_client k).connections
    → Reach k n s
    → s.callers ≡ before ++ (l ∷ after)
    → Progress s.pool l
never_blocked {k} {n} {s} before after l few r at =
    Progress-of s.pool l
      (omega (arith, inv.counted, ap (tally holds) at, tally-append holds before l after))
      (λ w.
        omega (
          arith,
          inv.pending,
          inv.capacity,
          ap (tally waits) at,
          tally-append waits before l after,
        ))
  where
    inv : Inv (new_client k).connections n s
    inv = Reach-Inv r
