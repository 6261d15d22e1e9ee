-- ===== src/Events/Hub/Safety.antt =====
-- What one step of a goroutine keeps: the invariant of the hub, channel by channel.
pub mod Reachable
use ol1n_super_app.Base.{
  ℕ, zero, suc, ◌+◌, ◌-◌, ◌≤◌, ◌≡◌, ◌≢◌, refl, ap, sym, subst, ◌∙◌, inl, inr, Bool, true, false,
  Option, none, some, List, [], ◌∷◌, ◌++◌, arith, ◌==◌, if◌then◌else◌, length, All, Bool-cases,
}
use ol1n_super_app.Go.Channels.{
  Channel, make, is_open, is_open-length, is_open-make, is_open-make_other, try_send-open,
  close-open,
}
use ol1n_super_app.Events.Hub.{
  Message, Hub, new_hub, Routine, away, subscribed, leaving, sending, Move, subscribe, unsubscribe,
  close_own, send_next, unlock, broadcast, Result, blocked, panics, moves, delete, move, with_chans,
  System, Step, turn, all_away, Reach, here, later,
}
use ol1n_super_app.Events.Hub.Counting.{
  count, joined, left, reads, pending, open_count, excess, excess_mono, excess_unread, total,
  total-append, total_away, count-delete,
}

-- The invariant at one channel, seen from one goroutine.
pub record Sound (others : List Routine) (h : Hub) (g : Routine) (i : ℕ) : Type 0 where
  pub listed : count i h.clients ≡ joined i g + total (joined i) others
  pub owned :
      joined i g + total (joined i) others + (left i g + total (left i) others) ≤ open_count i h
  pub readers : h.readers ≡ reads g + total reads others
  pub todo : pending i g ≤ count i h.clients
  pub rest : total (excess i (count i h.clients)) others ≡ 0

-- The outcome of a step is not a panic, and keeps the invariant.
abbrev pub Good : List Routine → Result → Type 0
Good others blocked = Unit
Good others panics = ⊥
Good others (moves h g) = (i : ℕ) → Sound others h g i

under_lock :
    (others : List Routine) (b : Bool) (r : Result)
    → (b ≡ true → Good others r)
    → Good others (if b then r else blocked)
under_lock others true r f = f refl
under_lock others false r f = tt

subscribe-Sound :
    (others : List Routine) (h : Hub)
    → ((i : ℕ) → Sound others h away i)
    → (i : ℕ)
    → Sound others
        (record h { clients = length h.chans ∷ h.clients; chans = make 32 h.chans })
        (subscribed (length h.chans))
        i
unfolding count
subscribe-Sound others h s i = elim (Bool-cases (length h.chans == i)) [
  | inl e ↦
      let o = s i in
      let q : length h.chans ≡ i = ground (arith, e) in
      let was : is_open i h.chans ≡ false =
        subst (λ k. is_open k h.chans ≡ false) q (is_open-length h.chans) in
      let now : is_open i (make 32 h.chans) ≡ true =
        subst (λ k. is_open k (make 32 h.chans) ≡ true) q (is_open-make 32 h.chans) in
      record {
        listed = ground (arith, o.listed);
        owned = ground (arith, o.owned, was, now);
        readers = o.readers;
        todo = omega arith;
        rest = excess_mono i _ _ others (ground arith) o.rest;
      }
  | inr e ↦
      let o = s i in
      let q : i ≢ length h.chans = ground (arith, e) in
      record {
        listed = ground (arith, o.listed);
        owned = rw (e, is_open-make_other 32 i h.chans q) o.owned;
        readers = o.readers;
        todo = omega arith;
        rest = excess_mono i _ _ others (ground arith) o.rest;
      }
]

unsubscribe-Sound :
    (others : List Routine) (h : Hub) (c : ℕ)
    → h.readers ≡ 0
    → ((i : ℕ) → Sound others h (subscribed c) i)
    → (i : ℕ) → Sound others (record h { clients = delete c h.clients }) (leaving c) i
unsubscribe-Sound others h c free s i =
    let o = s i in
    record {
      listed = ground (arith, o.listed, o.owned, count-delete i c h.clients);
      owned = ground (arith, o.owned);
      readers = omega (arith, o.readers);
      todo = omega arith;
      rest = excess_unread i _ others (omega (arith, o.readers, free));
    }

close-Sound :
    (others : List Routine) (h : Hub) (c : ℕ) (ds : List (Channel Message))
    → is_open c ds ≡ false
    → ((i : ℕ) → i ≢ c → is_open i ds ≡ is_open i h.chans)
    → ((i : ℕ) → Sound others h (leaving c) i)
    → (i : ℕ) → Sound others (record h { chans = ds }) away i
close-Sound others h c ds shut same_state s i =
    let o = s i in
    record {
      listed = o.listed;
      owned = elim (Bool-cases (c == i)) [
        | inl e ↦
            let q : c ≡ i = ground (arith, e) in
            let now : is_open i ds ≡ false = subst (λ k. is_open k ds ≡ false) q shut in
            ground (arith, o.owned, now)
        | inr e ↦ let q : i ≢ c = ground (arith, e) in rw (same_state i q) (ground (arith, o.owned))
      ];
      readers = o.readers;
      todo = omega arith;
      rest = o.rest;
    }

send-Sound :
    (others : List Routine) (h : Hub) (e : Message) (c : ℕ) (cs : List ℕ)
    (ds : List (Channel Message))
    → ((i : ℕ) → is_open i ds ≡ is_open i h.chans)
    → ((i : ℕ) → Sound others h (sending e (c ∷ cs)) i)
    → (i : ℕ) → Sound others (record h { chans = ds }) (sending e cs) i
unfolding count
send-Sound others h e c cs ds same_state s i =
    let o = s i in
    record {
      listed = o.listed;
      owned = rw (same_state i) o.owned;
      readers = o.readers;
      todo = ground (arith, o.todo);
      rest = o.rest;
    }

leaving_open :
    (others : List Routine) (h : Hub) (c : ℕ)
    → Sound others h (leaving c) c
    → is_open c h.chans ≡ true
leaving_open others h c o = ground (arith, o.owned)

sending_open :
    (others : List Routine) (h : Hub) (e : Message) (c : ℕ) (cs : List ℕ)
    → Sound others h (sending e (c ∷ cs)) c
    → is_open c h.chans ≡ true
unfolding count
sending_open others h e c cs o = ground (arith, o.owned, o.listed, o.todo)

-- Every step of a goroutine in a sound state is good.
pub move-Good :
    (others : List Routine) (m : Move) (h : Hub) (g : Routine)
    → ((i : ℕ) → Sound others h g i)
    → Good others (move m h g)
unfolding move
move-Good others subscribe h away s =
    under_lock others (h.readers == 0) _ (λ e. subscribe-Sound others h s)
move-Good others unsubscribe h (subscribed c) s =
    under_lock others (h.readers == 0) _ (λ e. unsubscribe-Sound others h c (ground (arith, e)) s)
move-Good others close_own h (leaving c) s =
    let (ds, done, shut, same_state) = close-open c h.chans (leaving_open others h c (s c)) in
    subst (λ o. Good others (with_chans h away o)) (sym done)
      (close-Sound others h c ds shut same_state s)
move-Good others (broadcast now e) h away s = λ i.
    let o = s i in
    record {
      listed = o.listed;
      owned = o.owned;
      readers = omega (arith, o.readers);
      todo = omega arith;
      rest = o.rest;
    }
move-Good others send_next h (sending e (c ∷ cs)) s =
    let (ds, sent, same_state) = try_send-open e c h.chans (sending_open others h e c cs (s c)) in
    subst (λ o. Good others (with_chans h (sending e cs) o)) (sym sent)
      (send-Sound others h e c cs ds same_state s)
move-Good others unlock h (sending e []) s = λ i.
    let o = s i in
    record {
      listed = o.listed;
      owned = o.owned;
      readers = omega (arith, o.readers);
      todo = omega arith;
      rest = o.rest;
    }
move-Good others m h g s = tt
