-- ===== src/Events/Hub/Safety/Reachable.antt =====
-- What holds in every reachable state of the hub.
use ol1n_super_app.Base.{ℕ, ◌+◌, ◌≤◌, ◌≡◌, ◌≢◌, refl, ap, subst, ◌∙◌, List, ◌∷◌, ◌++◌, arith}
use ol1n_super_app.Events.Hub.{
  Hub, Routine, Move, panics, moves, move, System, turn, Reach, here, later,
}
use ol1n_super_app.Events.Hub.Counting.{
  count, joined, left, reads, open_count, excess, total, total-append, total_away,
}
use ol1n_super_app.Events.Hub.Safety.{Sound, Good, move-Good}

record Inv (s : System) (i : ℕ) : Type 0 where
  listed : count i s.hub.clients ≡ total (joined i) s.routines
  owned : total (joined i) s.routines + total (left i) s.routines ≤ open_count i s.hub
  readers : s.hub.readers ≡ total reads s.routines
  rest : total (excess i (count i s.hub.clients)) s.routines ≡ 0

Inv-Sound :
    (s : System) (before after : List Routine) (g : Routine) (i : ℕ)
    → s.routines ≡ before ++ (g ∷ after)
    → Inv s i
    → Sound (before ++ after) s.hub g i
Inv-Sound s before after g i at o =
    let split = λ (w : Routine → ℕ). ap (total w) at ∙ total-append w before g after in
    record {
      listed = omega (arith, o.listed, split (joined i));
      owned = omega (arith, o.owned, split (joined i), split (left i));
      readers = omega (arith, o.readers, split reads);
      todo = omega (arith, o.rest, split (excess i (count i s.hub.clients)));
      rest = omega (arith, o.rest, split (excess i (count i s.hub.clients)));
    }

Sound-Inv :
    (h : Hub) (before after : List Routine) (g : Routine) (i : ℕ)
    → Sound (before ++ after) h g i
    → Inv (record { hub = h; routines = before ++ (g ∷ after) }) i
Sound-Inv h before after g i o =
    let split = λ (w : Routine → ℕ). total-append w before g after in
    record {
      listed = omega (arith, o.listed, split (joined i));
      owned = omega (arith, o.owned, split (joined i), split (left i));
      readers = omega (arith, o.readers, split reads);
      rest = omega (arith, o.rest, o.todo, split (excess i (count i h.clients)));
    }

Reach-Inv : {n : ℕ} {s : System} → Reach n s → (i : ℕ) → Inv s i
unfolding count
Reach-Inv {n} here i = record {
  listed = omega (arith, total_away (joined i) n refl);
  owned = omega (arith, total_away (joined i) n refl, total_away (left i) n refl);
  readers = omega (arith, total_away reads n refl);
  rest = total_away (excess i 0) n refl;
}
Reach-Inv (later {s} r (turn before after m g {g' = g'} {h = h} at e)) i =
    let others = before ++ after in
    let good : Good others (moves h g') =
      subst (Good others) e
        (move-Good others m s.hub g (λ k. Inv-Sound s before after g k at (Reach-Inv r k))) in
    Sound-Inv h before after g' i (good i)

-- In every reachable state, whatever the goroutines have done and in whatever order, no step of any
-- goroutine panics: no `Broadcast` sends to a closed channel and no channel is closed twice.
pub hub_never_panics :
    {n : ℕ} {s : System} (before after : List Routine) (g : Routine) (m : Move)
    → Reach n s
    → s.routines ≡ before ++ (g ∷ after)
    → move m s.hub g ≢ panics
hub_never_panics {n} {s} before after g m r at e =
    subst (Good (before ++ after)) e
      (move-Good (before ++ after) m s.hub g (λ k. Inv-Sound s before after g k at (Reach-Inv r k)))
