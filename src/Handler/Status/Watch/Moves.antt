-- ===== src/Handler/Status/Watch/Moves.antt =====
-- What a move of the client or of the worker leaves of what the client can count on.
use ol1n_super_app.Base.{
  ℕ, ◌≡◌, ◌≢◌, subst, Bool, true, false, ◌&&◌, ◌||◌, some, List, [], ◌∷◌, ◌++◌, ◌==◌, Bytes, same,
  arith, Bool-cases, inl, inr,
}
use ol1n_super_app.Go.Channels.{Channel}
use ol1n_super_app.Sse.Broker.{Broker, snapshot, send_one}
use ol1n_super_app.Db.Tables.{Db, Job, Result, Ctx}
use ol1n_super_app.Db.Jobs.{find_job, get_job}
use ol1n_super_app.Handler.Status.Watch.{
  receive, buffer_of, is_full, Client, absent, subscribed, looping, Publisher, running, saved,
  sending, Watch, has_channel, row_ends,
}
use ol1n_super_app.Handler.Status.Watch.Buffers.{
  holds, Within-some, holds-append, Holds, receive-Kept,
}
use ol1n_super_app.Handler.Status.Watch.Sets.{stands_in}
use ol1n_super_app.Handler.Status.Watch.Kept.{
  Saved, Announced, Watched, IsWatched, Watched-broker, Watched-saved, Watched-copied, Watched-read,
  Watched-sent,
}

pub Saved-row :
    (id : Bytes) (db db' : Db) (p : Publisher)
    → find_job id db'.jobs ≡ find_job id db.jobs
    → Saved id db p
    → Saved id db' p
Saved-row id db db' running e h = tt
Saved-row id db db' saved e h = rw e h
Saved-row id db db' (sending chs) e h = rw e h

-- The client moves the first payload of its channel to what it has received.
Announced-received :
    (final raw : Bytes) (ch : ℕ) (row : Result Job) (got : List Bytes)
    (cs ds : List (Channel Bytes)) (d : Bool) (p : Publisher)
    → receive ch cs ≡ some (raw, ds)
    → Announced final ch row got cs d p
    → Announced final ch row (got ++ (raw ∷ [])) ds d p
unfolding holds
Announced-received final raw ch row got cs ds d running e h = tt
Announced-received final raw ch row got cs ds d saved e h = tt
Announced-received final raw ch row got cs ds d (sending chs) e h =
    elim (Bool-cases (holds final (buffer_of ch cs))) [
      | inl waits ↦
          let kept : same raw final || holds final (buffer_of ch ds) ≡ true =
            Within-some _ _ (raw, ds) e (receive-Kept final ch cs waits) in
          ground (arith, holds-append final got (raw ∷ []))
      | inr none' ↦ ground (arith, holds-append final got (raw ∷ []))
    ]

pub other_channel :
    (ch i : ℕ) (client : Client)
    → has_channel i client ≡ true
    → has_channel ch client ≡ false
    → (i == ch) ≡ false
other_channel ch i absent h g = cc
other_channel ch i (subscribed c) h g = ground arith
other_channel ch i (looping c row got) h g = ground arith

pub eq_false : (i ch : ℕ) → (i == ch) ≡ false → ch ≢ i
eq_false i ch e = ground (arith, e)

module _ (id final : Bytes) (w : Watch) (h : IsWatched id final w) where
  pub IsWatched-broker :
      (b : Broker)
      → ((ch : ℕ)
          → has_channel ch w.client ≡ true
          → stands_in ch (snapshot id w.broker) ≡ true
          → stands_in ch (snapshot id b) ≡ true)
      → ((ch : ℕ)
          → has_channel ch w.client ≡ true
          → Holds final ch w.broker.chans
          → Holds final ch b.chans)
      → IsWatched id final (record w { broker = b })
  IsWatched-broker b f g = record {
    row_saved = h.row_saved;
    client_watched =
        Watched-broker id final w.broker b w.dropped w.publisher w.client f g h.client_watched;
  }

  pub IsWatched-receives :
      (ch : ℕ) (row : Result Job) (got : List Bytes) (raw : Bytes) (cs : List (Channel Bytes))
      → w.client ≡ looping ch row got
      → receive ch w.broker.chans ≡ some (raw, cs)
      → IsWatched id final (record w {
        client = looping ch row (got ++ (raw ∷ []));
        broker = record w.broker { chans = cs };
      })
  unfolding snapshot
  IsWatched-receives ch row got raw cs at e =
      let (there, announced) =
        subst (Watched id final w.broker w.dropped w.publisher) at h.client_watched in
      record {
        row_saved = h.row_saved;
        client_watched = (
          there,
          Announced-received final raw ch row got w.broker.chans cs w.dropped w.publisher e
              announced,
        );
      }

  pub IsWatched-reads :
      (c : Ctx) (ch : ℕ)
      → w.client ≡ subscribed ch
      → c.refuses ≡ false
      → IsWatched id final (record w { client = looping ch (get_job c id w.db) [] })
  IsWatched-reads c ch at e =
      let there = subst (Watched id final w.broker w.dropped w.publisher) at h.client_watched in
      record {
        row_saved = h.row_saved;
        client_watched =
            Watched-read id final c w.db w.broker w.dropped w.publisher ch e h.row_saved there;
      }

  pub IsWatched-saves :
      (db : Db)
      → row_ends (find_job id db.jobs) ≡ true
      → IsWatched id final (record w { db = db; publisher = saved })
  IsWatched-saves db ended = record {
    row_saved = ended;
    client_watched =
        Watched-saved id final w.broker w.dropped w.publisher w.client h.client_watched;
  }

  pub IsWatched-copies :
      w.publisher ≡ saved
      → IsWatched id final (record w { publisher = sending (snapshot id w.broker) })
  IsWatched-copies at = record {
    row_saved = subst (Saved id w.db) at h.row_saved;
    client_watched =
        Watched-copied id final w.broker w.dropped w.client
          (subst (λ p. Watched id final w.broker w.dropped p w.client) at h.client_watched);
  }

  pub IsWatched-sends :
      (ch : ℕ) (chs : List ℕ) (b : Broker)
      → w.publisher ≡ sending (ch ∷ chs)
      → send_one final ch w.broker ≡ some b
      → IsWatched id final (record w {
        broker = b;
        publisher = sending chs;
        dropped = w.dropped || has_channel ch w.client && is_full ch w.broker.chans;
      })
  IsWatched-sends ch chs b at e = record {
    row_saved = subst (Saved id w.db) at h.row_saved;
    client_watched =
        Watched-sent id final w.broker b w.dropped ch chs w.client e
          (subst (λ p. Watched id final w.broker w.dropped p w.client) at h.client_watched);
  }
