-- ===== src/Nntp/Pool/System.antt =====
-- Goroutines that share one client, in any interleaving of their steps.
use ol1n_super_app.Base.{ℕ, zero, suc, ◌≡◌, ◌+◌, some, List, [], ◌∷◌, ◌++◌, arith}
use ol1n_super_app.Base.Ints.{ℤ}
use ol1n_super_app.Nntp.Pool.{
  Pool, new_client, Caller, outside, waiting, dialing, using, Event, step,
}

pub record System : Type 0 where
  pub pool : Pool
  pub callers : List Caller

pub data Step (s : System) : System → Type 0 where
  turn :
      (before after : List Caller) (e : Event) (l : Caller) {l' : Caller} {p : Pool}
      → s.callers ≡ before ++ (l ∷ after)
      → step e s.pool l ≡ some (p, l')
      → Step s (record { pool = p; callers = before ++ (l' ∷ after) })

abbrev pub all_outside : ℕ → List Caller
all_outside zero = []
all_outside (suc n) = outside ∷ all_outside n

abbrev pub start : ℤ → ℕ → System
start connections n = record { pool = new_client connections; callers = all_outside n }

-- What `n` goroutines reach on a fresh client.
pub data Reach (connections : ℤ) (n : ℕ) : System → Type 0 where
  here : Reach connections n (start connections n)
  later : {s t : System} → Reach connections n s → Step s t → Reach connections n t

-- Those in a call that own a token, and those that wait for one.
abbrev pub holds : Caller → ℕ
holds (using c) = 1
holds dialing = 1
holds _ = 0

abbrev pub waits : Caller → ℕ
waits waiting = 1
waits _ = 0

unfoldable pub tally : (Caller → ℕ) → List Caller → ℕ
tally w [] = 0
tally w (l ∷ ls) = w l + tally w ls

pub tally-append :
    (w : Caller → ℕ) (xs : List Caller) (l : Caller) (ys : List Caller)
    → tally w (xs ++ (l ∷ ys)) ≡ w l + tally w (xs ++ ys)
unfolding tally
tally-append w [] l ys = omega arith
tally-append w (x ∷ xs) l ys = omega (arith, tally-append w xs l ys)
