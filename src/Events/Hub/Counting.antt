-- ===== src/Events/Hub/Counting.antt =====
-- Counting channels in sets, and goroutines by where they stand.
use ol1n_super_app.Base.{
  ℕ, zero, suc, ◌+◌, ◌-◌, ◌≤◌, ◌≡◌, refl, List, [], ◌∷◌, ◌++◌, arith, ◌==◌, if◌then◌else◌,
}
use ol1n_super_app.Go.Channels.{is_open}
use ol1n_super_app.Events.Hub.{Hub, Routine, away, subscribed, leaving, sending, delete, all_away}

-- How often a channel is in a set, subscribed, being left, or still to be sent to.
unfoldable pub count : ℕ → List ℕ → ℕ
count i [] = 0
count i (c ∷ cs) = (if c == i then 1 else 0) + count i cs

abbrev pub joined : ℕ → Routine → ℕ
joined i (subscribed c) = if c == i then 1 else 0
joined i g = 0

abbrev pub left : ℕ → Routine → ℕ
left i (leaving c) = if c == i then 1 else 0
left i g = 0

abbrev pub reads : Routine → ℕ
reads (sending e cs) = 1
reads g = 0

abbrev pub pending : ℕ → Routine → ℕ
pending i (sending e cs) = count i cs
pending i g = 0

unfoldable pub total : (Routine → ℕ) → List Routine → ℕ
total w [] = 0
total w (g ∷ gs) = w g + total w gs

pub total-append :
    (w : Routine → ℕ) (xs : List Routine) (g : Routine) (ys : List Routine)
    → total w (xs ++ (g ∷ ys)) ≡ w g + total w (xs ++ ys)
unfolding total
total-append w [] g ys = omega arith
total-append w (x ∷ xs) g ys = omega (arith, total-append w xs g ys)

pub total_away : (w : Routine → ℕ) (n : ℕ) → w away ≡ 0 → total w (all_away n) ≡ 0
unfolding total
total_away w zero h = refl
total_away w (suc n) h = omega (arith, total_away w n h)

abbrev pub open_count : ℕ → Hub → ℕ
open_count i h = if is_open i h.chans then 1 else 0

-- How many sends to the channel a goroutine has left beyond the `n` that are listed.
abbrev pub excess : ℕ → ℕ → Routine → ℕ
excess i n g = pending i g - n

pub excess_mono :
    (i n k : ℕ) (gs : List Routine) → n ≤ k → total (excess i n) gs ≡ 0 → total (excess i k) gs ≡ 0
unfolding total
excess_mono i n k [] le h = refl
excess_mono i n k (g ∷ gs) le h = omega (arith, excess_mono i n k gs le (omega (arith, h)))

pub excess_unread : (i n : ℕ) (gs : List Routine) → total reads gs ≡ 0 → total (excess i n) gs ≡ 0
unfolding total
excess_unread i n [] h = refl
excess_unread i n (sending e cs ∷ gs) h = ground arith
excess_unread i n (away ∷ gs) h = omega (arith, excess_unread i n gs (omega (arith, h)))
excess_unread i n (subscribed c ∷ gs) h = omega (arith, excess_unread i n gs (omega (arith, h)))
excess_unread i n (leaving c ∷ gs) h = omega (arith, excess_unread i n gs (omega (arith, h)))

pub count-delete :
    (i c : ℕ) (cs : List ℕ) → count i (delete c cs) ≡ (if c == i then 0 else count i cs)
unfolding count delete
count-delete i c [] = ground arith
count-delete i c (d ∷ cs) = ground (arith, count-delete i c cs)
