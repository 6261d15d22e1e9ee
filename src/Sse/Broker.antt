-- ===== src/Sse/Broker.antt =====
-- broker.go. Each function is what its goroutine does without another one between: a section under
-- the mutex, or one operation on a channel. A channel is its index in `chans`.
pub mod Race
use ol1n_super_app.Base.{
  ℕ, ◌≡◌, Bool, true, false, Option, none, some, List, [], ◌∷◌, ◌++◌, ◌==◌, if◌then◌else◌, Bytes,
  same, length,
}
use ol1n_super_app.Go.Channels.{Channel, make, try_send, close}

pub record Broker : Type 0 where
  pub subs : List (Bytes × List ℕ)
  pub chans : List (Channel Bytes)

abbrev pub new_broker : Broker
new_broker = record { subs = []; chans = [] }

-- `b.subs[key]`, the empty set for a missing key.
unfoldable pub subscribers : Bytes → List (Bytes × List ℕ) → List ℕ
subscribers key [] = []
subscribers key ((k, set) ∷ rest) = let r = subscribers key rest in if same k key then set else r

-- `b.subs[key][ch] = struct{}{}`, with a new set for a missing key.
unfoldable pub add_subscriber : Bytes → ℕ → List (Bytes × List ℕ) → List (Bytes × List ℕ)
add_subscriber key ch [] = (key, ch ∷ []) ∷ []
add_subscriber key ch ((k, set) ∷ rest) =
    let r = (k, set) ∷ add_subscriber key ch rest in if same k key then (k, ch ∷ set) ∷ rest else r

unfoldable pub delete : ℕ → List ℕ → List ℕ
delete ch [] = []
delete ch (c ∷ cs) = let r = delete ch cs in if c == ch then r else c ∷ r

abbrev pub keep_unless_empty : Bytes → List ℕ → List (Bytes × List ℕ) → List (Bytes × List ℕ)
keep_unless_empty k [] rest = rest
keep_unless_empty k set rest = (k, set) ∷ rest

unfoldable pub remove_subscriber : Bytes → ℕ → List (Bytes × List ℕ) → List (Bytes × List ℕ)
unfolding delete
remove_subscriber key ch [] = []
remove_subscriber key ch ((k, set) ∷ rest) =
    let r = (k, set) ∷ remove_subscriber key ch rest in
    if same k key then keep_unless_empty k (delete ch set) rest else r

-- `Subscribe`: the channel and the broker with it.
unfoldable pub subscribe : Bytes → Broker → ℕ × Broker
unfolding add_subscriber
subscribe key b =
    let ch = length b.chans in
    (ch, record { subs = add_subscriber key ch b.subs; chans = make 16 b.chans })

-- `cancel`, in two parts: the section under the mutex, then `close(ch)`.
unfoldable pub unregister : Bytes → ℕ → Broker → Broker
unfolding remove_subscriber
unregister key ch b = record b { subs = remove_subscriber key ch b.subs }

abbrev pub with_chans : Broker → Option (List (Channel Bytes)) → Option Broker
with_chans b none = none
with_chans b (some cs) = some (record b { chans = cs })

unfoldable pub close_channel : ℕ → Broker → Option Broker
unfolding close
close_channel ch b = with_chans b (close ch b.chans)

-- `Publish`, in two parts: the copy under the mutex, then the sends.
unfoldable pub snapshot : Bytes → Broker → List ℕ
unfolding subscribers
snapshot key b = subscribers key b.subs

unfoldable pub send_one : Bytes → ℕ → Broker → Option Broker
unfolding try_send
send_one payload ch b = with_chans b (try_send payload ch b.chans)

abbrev then_send : (Broker → Option Broker) → Option Broker → Option Broker
then_send next none = none
then_send next (some b) = next b

unfoldable pub send_all : Bytes → List ℕ → Broker → Option Broker
unfolding send_one
send_all payload [] b = some b
send_all payload (ch ∷ chs) b = then_send (send_all payload chs) (send_one payload ch b)

-- `Publish` with nothing between its parts.
unfoldable pub publish : Bytes → Bytes → Broker → Option Broker
unfolding send_all snapshot
publish key payload b = send_all payload (snapshot key b) b
