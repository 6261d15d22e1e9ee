-- ===== src/Handler/Status/Watch/Kept.antt =====
-- What a client of a stream can count on, and that the operations of a broker keep it.
use ol1n_super_app.Base.{
  ℕ, ◌≡◌, refl, ap, ◌∙◌, Bool, true, false, ◌&&◌, ◌||◌, Option, none, some, List, [], ◌∷◌, ◌==◌,
  Bytes, arith, Bool-cases, inl, inr,
}
use ol1n_super_app.Go.Channels.{Channel, try_send, close}
use ol1n_super_app.Sse.Broker.{Broker, subscribers, close_channel, snapshot, send_one, with_chans}
use ol1n_super_app.Db.Tables.{Db, Job, Result, Ctx}
use ol1n_super_app.Db.Jobs.{find_job, get_job}
use ol1n_super_app.Handler.Status.Watch.{
  buffer_of, is_full, Client, absent, subscribed, looping, Publisher, running, saved, sending,
  Watch, has_channel, row_ends,
}
use ol1n_super_app.Handler.Status.Watch.Buffers.{
  holds, Within, Within-any, Within-some, Holds, try_send-Holds, try_send-sent, close-Holds,
}
use ol1n_super_app.Handler.Status.Watch.Sets.{stands_in}

-- Once the worker has saved, the row is an end.
abbrev pub Saved : Bytes → Db → Publisher → Type 0
Saved id db running = Unit
Saved id db saved = row_ends (find_job id db.jobs) ≡ true
Saved id db (sending chs) = row_ends (find_job id db.jobs) ≡ true

-- Once the worker has copied the subscribers, a client in its loop has read an end, is still to be sent
-- to, has received the end, has it waiting, or had no room for it.
abbrev pub Announced :
    Bytes → ℕ → Result Job → List Bytes → List (Channel Bytes) → Bool → Publisher → Type 0
Announced final ch row got cs dropped running = Unit
Announced final ch row got cs dropped saved = Unit
Announced final ch row got cs dropped (sending chs) =
    row_ends row || stands_in ch chs || holds final got || holds final (buffer_of ch cs) || dropped
    ≡ true

abbrev pub Watched : Bytes → Bytes → Broker → Bool → Publisher → Client → Type 0
Watched id final b dropped p absent = Unit
Watched id final b dropped p (subscribed ch) = stands_in ch (snapshot id b) ≡ true
Watched id final b dropped p (looping ch row got) =
    (stands_in ch (snapshot id b) ≡ true) × Announced final ch row got b.chans dropped p

pub record IsWatched (id final : Bytes) (w : Watch) : Type 0 where
  pub row_saved : Saved id w.db w.publisher
  pub client_watched : Watched id final w.broker w.dropped w.publisher w.client

eq_refl : (n : ℕ) → (n == n) ≡ true
eq_refl n = ground arith

-- What a send to one channel leaves.
Within-with_chans :
    (P : List (Channel Bytes) → Type 0) (b : Broker) (o : Option (List (Channel Bytes)))
    → Within P o
    → Within (λ b'. (b'.subs ≡ b.subs) × P b'.chans) (with_chans b o)
Within-with_chans P b none h = tt
Within-with_chans P b (some cs) h = (refl, h)

pub send_one-snapshot :
    (id raw : Bytes) (c : ℕ) (b b' : Broker)
    → send_one raw c b ≡ some b'
    → snapshot id b' ≡ snapshot id b
unfolding send_one snapshot
send_one-snapshot id raw c b b' e =
    ap (subscribers id)
      (Within-some _ _ b' e (
        Within-with_chans (λ cs. Unit) b (try_send raw c b.chans)
          (Within-any (try_send raw c b.chans)))).0

pub send_one-Holds :
    (x raw : Bytes) (c ch : ℕ) (b b' : Broker)
    → send_one raw c b ≡ some b'
    → Holds x ch b.chans
    → Holds x ch b'.chans
unfolding send_one
send_one-Holds x raw c ch b b' e h =
    (Within-some _ _ b' e (
      Within-with_chans (Holds x ch) b (try_send raw c b.chans)
        (try_send-Holds x raw c ch b.chans h))).1

send_one-sent :
    (raw : Bytes) (c : ℕ) (b b' : Broker)
    → send_one raw c b ≡ some b'
    → is_full c b.chans ≡ false
    → Holds raw c b'.chans
unfolding send_one
send_one-sent raw c b b' e room =
    (Within-some _ _ b' e (
      Within-with_chans (Holds raw c) b (try_send raw c b.chans)
        (try_send-sent raw c b.chans room))).1

pub close_channel-snapshot :
    (id : Bytes) (c : ℕ) (b b' : Broker)
    → close_channel c b ≡ some b'
    → snapshot id b' ≡ snapshot id b
unfolding close_channel snapshot
close_channel-snapshot id c b b' e =
    ap (subscribers id)
      (Within-some _ _ b' e
        (Within-with_chans (λ cs. Unit) b (close c b.chans) (Within-any (close c b.chans)))).0

pub close_channel-Holds :
    (x : Bytes) (c ch : ℕ) (b b' : Broker)
    → close_channel c b ≡ some b'
    → Holds x ch b.chans
    → Holds x ch b'.chans
unfolding close_channel
close_channel-Holds x c ch b b' e h =
    (Within-some _ _ b' e
      (Within-with_chans (Holds x ch) b (close c b.chans) (close-Holds x c ch b.chans h))).1

module _ (id final : Bytes) where
  Announced-chans :
      (ch : ℕ) (row : Result Job) (got : List Bytes) (cs ds : List (Channel Bytes)) (d : Bool)
      (p : Publisher)
      → (Holds final ch cs → Holds final ch ds)
      → Announced final ch row got cs d p
      → Announced final ch row got ds d p
  Announced-chans ch row got cs ds d running f h = tt
  Announced-chans ch row got cs ds d saved f h = tt
  Announced-chans ch row got cs ds d (sending chs) f h =
      elim (Bool-cases (holds final (buffer_of ch cs))) [
        | inl e ↦ ground (arith, f e)
        | inr e ↦ ground arith
      ]

  -- A broker that keeps the client's place and what waits for it.
  pub Watched-broker :
      (b b' : Broker) (d : Bool) (p : Publisher) (client : Client)
      → ((ch : ℕ)
          → has_channel ch client ≡ true
          → stands_in ch (snapshot id b) ≡ true
          → stands_in ch (snapshot id b') ≡ true)
      → ((ch : ℕ) → has_channel ch client ≡ true → Holds final ch b.chans → Holds final ch b'.chans)
      → Watched id final b d p client
      → Watched id final b' d p client
  Watched-broker b b' d p absent f g h = tt
  Watched-broker b b' d p (subscribed ch) f g h = f ch (eq_refl ch) h
  Watched-broker b b' d p (looping ch row got) f g (there, h) = (
    f ch (eq_refl ch) there,
    Announced-chans ch row got b.chans b'.chans d p (g ch (eq_refl ch)) h,
  )

  pub Watched-saved :
      (b : Broker) (d : Bool) (p : Publisher) (client : Client)
      → Watched id final b d p client
      → Watched id final b d saved client
  Watched-saved b d p absent h = tt
  Watched-saved b d p (subscribed ch) h = h
  Watched-saved b d p (looping ch row got) (there, h) = (there, tt)

  -- Everyone who is registered is copied.
  pub Watched-copied :
      (b : Broker) (d : Bool) (client : Client)
      → Watched id final b d saved client
      → Watched id final b d (sending (snapshot id b)) client
  Watched-copied b d absent h = tt
  Watched-copied b d (subscribed ch) h = h
  Watched-copied b d (looping ch row got) (there, h) = (there, ground arith)

  pub Watched-read :
      (c : Ctx) (db : Db) (b : Broker) (d : Bool) (p : Publisher) (ch : ℕ)
      → c.refuses ≡ false
      → Saved id db p
      → stands_in ch (snapshot id b) ≡ true
      → Watched id final b d p (looping ch (get_job c id db) [])
  unfolding get_job
  Watched-read c db b d running ch e s there = (there, tt)
  Watched-read c db b d saved ch e s there = (there, tt)
  Watched-read c db b d (sending chs) ch e s there = (there, rw e (ground arith))

  -- The worker's send to one of the channels that it copied.
  pub Watched-sent :
      (b b' : Broker) (d : Bool) (c : ℕ) (chs : List ℕ) (client : Client)
      → send_one final c b ≡ some b'
      → Watched id final b d (sending (c ∷ chs)) client
      → Watched id final b' (d || has_channel c client && is_full c b.chans) (sending chs) client
  unfolding stands_in
  Watched-sent b b' d c chs absent e h = tt
  Watched-sent b b' d c chs (subscribed ch) e h =
      ap (stands_in ch) (send_one-snapshot id final c b b' e) ∙ h
  Watched-sent b b' d c chs (looping ch row got) e (there, h) =
      (ap (stands_in ch) (send_one-snapshot id final c b b' e) ∙ there, announced)
    where
      announced :
          Announced final ch row got b'.chans (d || (ch == c) && is_full c b.chans) (sending chs)
      announced = elim (Bool-cases (ch == c)) [
        | inl same_channel ↦ elim (Bool-cases (is_full c b.chans)) [
          | inl full ↦ rw (same_channel, full) (ground arith)
          | inr room ↦
              let at : ch ≡ c = ground (arith, same_channel) in
              let waits : Holds final ch b'.chans = rw at (send_one-sent final c b b' e room) in
              rw waits (ground arith)
        ]
        | inr other ↦
            let not_it : (c == ch) ≡ false = ground (arith, other) in
            let kept = send_one-Holds final final c ch b b' e in ground (arith, rw not_it at h)
      ]
