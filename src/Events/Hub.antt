-- ===== src/Events/Hub.antt =====
-- hub.go. One step is a section under the mutex, or one operation on a channel; `readers` counts the
-- goroutines that hold the read lock. A channel is its index in `chans`.
pub mod Counting
pub mod Safety
use ol1n_super_app.Base.{
  ℕ, ◌+◌, ◌-◌, ◌≡◌, refl, Bool, true, false, Option, none, some, List, [], zero, suc, Bytes, ◌∷◌,
  ◌++◌, ◌==◌, if◌then◌else◌, length,
}
use ol1n_super_app.Go.Channels.{Channel, make, try_send, close}

-- `Event`; a time of 0 is the zero time.
pub record Message : Type 0 where
  pub kind : Bytes
  pub payload : Bytes
  pub time : ℕ

-- `if e.Time.IsZero() { e.Time = time.Now() }`
abbrev pub stamped : ℕ → Message → Message
stamped now e = if e.time == 0 then record e { time = now } else e

pub record Hub : Type 0 where
  pub readers : ℕ
  pub clients : List ℕ
  pub chans : List (Channel Message)

abbrev pub new_hub : Hub
new_hub = record { readers = 0; clients = []; chans = [] }

-- Where a goroutine stands: in no call, between `Subscribe` and `Unsubscribe`, in `Unsubscribe`
-- before `close(ch)`, or in the loop of `Broadcast` with the channels that are left.
pub data Routine : Type 0 where
  away : Routine
  subscribed : ℕ → Routine
  leaving : ℕ → Routine
  sending : Message → List ℕ → Routine

pub data Move : Type 0 where
  subscribe unsubscribe close_own send_next unlock : Move
  broadcast : ℕ → Message → Move

-- `blocked`: the mutex is not free, or the goroutine is elsewhere.
pub data Result : Type 0 where
  blocked panics : Result
  moves : Hub → Routine → Result

unfoldable pub delete : ℕ → List ℕ → List ℕ
delete ch [] = []
delete ch (c ∷ cs) = let r = delete ch cs in if c == ch then r else c ∷ r

abbrev with_chans : Hub → Routine → Option (List (Channel Message)) → Result
with_chans h g none = panics
with_chans h g (some cs) = moves (record h { chans = cs }) g

unfoldable pub move : Move → Hub → Routine → Result
unfolding delete try_send close
move subscribe h away =
    if h.readers == 0
    then moves (record h { clients = length h.chans ∷ h.clients; chans = make 32 h.chans })
        (subscribed (length h.chans))
    else blocked
move unsubscribe h (subscribed ch) =
    if h.readers == 0
    then moves (record h { clients = delete ch h.clients }) (leaving ch)
    else blocked
move close_own h (leaving ch) = with_chans h away (close ch h.chans)
move (broadcast now e) h away =
    moves (record h { readers = h.readers + 1 }) (sending (stamped now e) h.clients)
move send_next h (sending e (ch ∷ rest)) = with_chans h (sending e rest) (try_send e ch h.chans)
move unlock h (sending e []) = moves (record h { readers = h.readers - 1 }) away
move m h g = blocked

-- The goroutines with the hub that they share, in any interleaving.
pub record System : Type 0 where
  pub hub : Hub
  pub routines : List Routine

pub data Step (s : System) : System → Type 0 where
  turn :
      (before after : List Routine) (m : Move) (g : Routine) {g' : Routine} {h : Hub}
      → s.routines ≡ before ++ (g ∷ after)
      → move m s.hub g ≡ moves h g'
      → Step s (record { hub = h; routines = before ++ (g' ∷ after) })

abbrev pub all_away : ℕ → List Routine
all_away zero = []
all_away (suc n) = away ∷ all_away n

pub data Reach (n : ℕ) : System → Type 0 where
  here : Reach n (record { hub = new_hub; routines = all_away n })
  later : {s t : System} → Reach n s → Step s t → Reach n t
