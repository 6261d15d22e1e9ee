-- ===== src/Sse/Broker/Race.antt =====
-- A `cancel` between the two parts of `Publish`.
use ol1n_super_app.Base.{
  ℕ, ◌≡◌, refl, none, some, List, [], ◌∷◌, Bytes, same, same_iff, length, Bool-cases, inl, inr,
}
use ol1n_super_app.Go.Channels.{make, is_open-make, close-open, try_send-closed}
use ol1n_super_app.Sse.Broker.{
  Broker, subscribers, add_subscriber, remove_subscriber, subscribe, unregister, close_channel,
  snapshot, send_one, send_all,
}

-- The channel is first in the set of its key.
subscribers-add_subscriber :
    (key : Bytes) (ch : ℕ) (subs : List (Bytes × List ℕ))
    → subscribers key (add_subscriber key ch subs) ≡ ch ∷ subscribers key subs
unfolding subscribers add_subscriber
subscribers-add_subscriber key ch [] = rw ((same_iff key key).1 refl) refl
subscribers-add_subscriber key ch ((k, set) ∷ rest) = elim (Bool-cases (same k key)) [
  | inl e ↦ rw (e, e) refl
  | inr e ↦ rw (e, e) (subscribers-add_subscriber key ch rest)
]

-- Whatever the broker's state: if a client subscribes, `Publish` copies the subscribers of the key,
-- and the client's `cancel` runs to its end before the sends, then `cancel` succeeds and the sends
-- panic on the closed channel.
pub publish_race :
    (key payload : Bytes) (b : Broker)
    → let (ch, subscribed) = subscribe key b in
      (closed : Broker) × (close_channel ch (unregister key ch subscribed) ≡ some closed)
      × (send_all payload (snapshot key subscribed) closed ≡ none)
unfolding subscribe unregister close_channel snapshot send_all send_one
publish_race key payload b =
    let ch = length b.chans in
    let (cs, done, shut, others) = close-open ch (make 16 b.chans) (is_open-make 16 b.chans) in
    (
      record { subs = remove_subscriber key ch (add_subscriber key ch b.subs); chans = cs },
      rw done refl,
      rw (subscribers-add_subscriber key ch b.subs, try_send-closed payload ch cs shut) refl,
    )
