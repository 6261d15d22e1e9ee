-- ===== src/Handler/Status/Watch.antt =====
-- A client of `streamJobStatus` and the worker that ends the job, in any order with everything else that
-- uses the broker and the tables.
pub mod Buffers
pub mod Sets
pub mod Kept
pub mod Moves
pub mod Ends
use ol1n_super_app.Base.{
  ℕ, zero, suc, ◌≡◌, ◌≢◌, Bool, true, false, not, ◌&&◌, ◌||◌, Option, none, some, List, [], ◌∷◌,
  ◌++◌, ◌==◌, ltb, length, if◌then◌else◌, Bytes,
}
use ol1n_super_app.Go.Channels.{Channel}
use ol1n_super_app.Sse.Broker.{Broker, subscribe, unregister, close_channel, snapshot, send_one}
use ol1n_super_app.Db.Tables.{Job, Db, not_found, Result, ok, err, Ctx}
use ol1n_super_app.Base.Ints.{ℤ}
use ol1n_super_app.Db.Jobs.{get_job, find_job, mark_job_done, mark_job_failed, update_job_progress}
use ol1n_super_app.Handler.Status.{is_terminal}

-- `<-ch`, where a payload waits.
abbrev pub received :
    Channel Bytes → List (Channel Bytes) → List Bytes → Option (Bytes × List (Channel Bytes))
received c cs [] = none
received c cs (raw ∷ rest) = some (raw, record c { buffer = rest } ∷ cs)

abbrev pub behind :
    Channel Bytes → Option (Bytes × List (Channel Bytes)) → Option (Bytes × List (Channel Bytes))
behind c none = none
behind c (some (raw, cs)) = some (raw, c ∷ cs)

unfoldable pub receive : ℕ → List (Channel Bytes) → Option (Bytes × List (Channel Bytes))
receive i [] = none
receive zero (c ∷ cs) = received c cs c.buffer
receive (suc i) (c ∷ cs) = behind c (receive i cs)

-- What waits in a channel, and whether it takes nothing more.
unfoldable pub buffer_of : ℕ → List (Channel Bytes) → List Bytes
buffer_of i [] = []
buffer_of zero (c ∷ cs) = c.buffer
buffer_of (suc i) (c ∷ cs) = buffer_of i cs

unfoldable pub is_full : ℕ → List (Channel Bytes) → Bool
is_full i [] = true
is_full zero (c ∷ cs) = not (ltb (length c.buffer) c.capacity)
is_full (suc i) (c ∷ cs) = is_full i cs

-- The client has not come; has subscribed; or is in its loop, with the row it read and what it received.
pub data Client : Type 0 where
  absent : Client
  subscribed : ℕ → Client
  looping : ℕ → Result Job → List Bytes → Client

-- The worker has the job; has saved its end; or has copied the subscribers, some of whom it has not sent to.
pub data Publisher : Type 0 where
  running : Publisher
  saved : Publisher
  sending : List ℕ → Publisher

-- `dropped`: the end was sent to the client's channel while that was full.
pub record Watch : Type 0 where
  pub db : Db
  pub broker : Broker
  pub client : Client
  pub publisher : Publisher
  pub dropped : Bool

abbrev pub start : Db → Broker → Watch
start db b = record { db = db; broker = b; client = absent; publisher = running; dropped = false }

abbrev pub has_channel : ℕ → Client → Bool
has_channel ch absent = false
has_channel ch (subscribed i) = i == ch
has_channel ch (looping i row got) = i == ch

-- The row ends the stream at once.
abbrev pub row_ends : Result Job → Bool
row_ends (ok j) = is_terminal j.status
row_ends (err not_found) = true
row_ends (err e) = false

-- A step of the client, of the worker that ends the job `id` with `final`, or of another goroutine.
pub data Step (id final : Bytes) (w : Watch) : Watch → Type 0 where
  subscribes :
      w.client ≡ absent
      → Step id final w (record w {
        client = subscribed (subscribe id w.broker).0;
        broker = (subscribe id w.broker).1;
      })
  reads :
      (c : Ctx) (ch : ℕ)
      → w.client ≡ subscribed ch
      → c.refuses ≡ false
      → Step id final w (record w { client = looping ch (get_job c id w.db) [] })
  receives :
      (ch : ℕ) (row : Result Job) (got : List Bytes) (raw : Bytes) (cs : List (Channel Bytes))
      → w.client ≡ looping ch row got
      → receive ch w.broker.chans ≡ some (raw, cs)
      → Step id final w (record w {
        client = looping ch row (got ++ (raw ∷ []));
        broker = record w.broker { chans = cs };
      })
  progresses :
      (c : Ctx) (pct : ℤ) (db : Db)
      → w.publisher ≡ running
      → update_job_progress c id pct w.db ≡ ok db
      → Step id final w (record w { db = db })
  saves :
      (c : Ctx) (url : Bytes) (db : Db)
      → w.publisher ≡ running
      → mark_job_done c id url w.db ≡ ok db
      → Step id final w (record w { db = db; publisher = saved })
  saves_failure :
      (c : Ctx) (msg : Bytes) (db : Db)
      → w.publisher ≡ running
      → mark_job_failed c id msg w.db ≡ ok db
      → Step id final w (record w { db = db; publisher = saved })
  copies :
      w.publisher ≡ saved
      → Step id final w (record w { publisher = sending (snapshot id w.broker) })
  sends :
      (ch : ℕ) (chs : List ℕ) (b : Broker)
      → w.publisher ≡ sending (ch ∷ chs)
      → send_one final ch w.broker ≡ some b
      → Step id final w (record w {
        broker = b;
        publisher = sending chs;
        dropped = w.dropped || has_channel ch w.client && is_full ch w.broker.chans;
      })
  other_subscribes :
      (key : Bytes) → Step id final w (record w { broker = (subscribe key w.broker).1 })
  other_leaves :
      (key : Bytes) (ch : ℕ)
      → has_channel ch w.client ≡ false
      → Step id final w (record w { broker = unregister key ch w.broker })
  other_closes :
      (ch : ℕ) (b : Broker)
      → has_channel ch w.client ≡ false
      → close_channel ch w.broker ≡ some b
      → Step id final w (record w { broker = b })
  other_sends :
      (raw : Bytes) (ch : ℕ) (b : Broker)
      → send_one raw ch w.broker ≡ some b
      → Step id final w (record w { broker = b })
  other_receives :
      (ch : ℕ) (raw : Bytes) (cs : List (Channel Bytes))
      → has_channel ch w.client ≡ false
      → receive ch w.broker.chans ≡ some (raw, cs)
      → Step id final w (record w { broker = record w.broker { chans = cs } })
  other_statement :
      (db : Db)
      → find_job id db.jobs ≡ find_job id w.db.jobs
      → Step id final w (record w { db = db })

pub data Steps (id final : Bytes) (w : Watch) : Watch → Type 0 where
  none_yet : Steps id final w w
  next : {v v' : Watch} → Steps id final w v → Step id final v v' → Steps id final w v'
