-- ===== src/Tests/Streams.antt =====
-- ol1n-vault/internal/handler: streams of job events at concrete inputs.
use ol1n_super_app.Base.{
  ◌≡◌, refl, true, false, ◌||◌, none, some, List, [], ◌∷◌, map, if◌then◌else◌, codes, same, arith,
}
use ol1n_super_app.Base.Ints.{pos}
use ol1n_super_app.Db.Tables.{
  Job, Db, fresh_db, Ctx, ok, job_running, job_done, job_failed, job_type_upload,
}
use ol1n_super_app.Db.Jobs.{get_job, find_job, mark_job_done, update_jobs}
use ol1n_super_app.Go.Channels.{try_send}
use ol1n_super_app.Sse.Broker.{
  Broker, new_broker, subscribe, snapshot, send_one, subscribers, add_subscriber,
}
use ol1n_super_app.Jobs.Worker.{Event, no_event}
use ol1n_super_app.Handler.Status.{Json, stream_job_status, is_terminal, state_event}
use ol1n_super_app.Handler.Status.Events.{
  read_events, through_terminal, any_terminal, published, stream_job_status_lem,
}
use ol1n_super_app.Handler.Status.Watch.{
  Watch, start, looping, saved, sending, subscribed, Steps, none_yet, next, subscribes, reads,
  saves, copies, sends, row_ends, buffer_of, is_full,
}
use ol1n_super_app.Handler.Status.Watch.Buffers.{holds}
use ol1n_super_app.Handler.Status.Watch.Ends.{stream_ends}

abbrev live : Ctx
live = record { now = 1700000000; refuses = false }

abbrev its_job : Job
its_job = record {
  id = codes "j1";
  artifact_id = codes "a1";
  kind = job_type_upload;
  status = job_running;
  progress = pos 40;
  error_msg = none;
  result_url = none;
  tmp_path = none;
  created_at = 1;
  updated_at = 2;
}

abbrev jobs_db : Db
jobs_db = record fresh_db { jobs = its_job ∷ [] }

-- An event's text is its status.
abbrev plain : Json
plain = record { marshal = λ e. e.status; unmarshal_status = λ text. some text }

abbrev published_events : List Event
published_events =
    record no_event { status = job_running }
    ∷ record no_event { status = job_failed }
    ∷ record no_event { status = job_running }
    ∷ []

row_found : get_job live (codes "j1") jobs_db ≡ ok its_job
unfolding get_job find_job same
row_found = refl

stream_job_status_example :
    ((stream_job_status plain true live
        (codes "j1")
        jobs_db
        true
        (published plain published_events)).status
      ≡ 200)
    × (read_events [] []
          (stream_job_status plain true live
            (codes "j1")
            jobs_db
            true
            (published plain published_events)).body
        ≡ map
            (λ (e : Event). e.status)
            (state_event its_job
              ∷ (if is_terminal job_running then [] else through_terminal published_events)))
    × ((stream_job_status plain true live
          (codes "j1")
          jobs_db
          true
          (published plain published_events)).returned
        ≡ is_terminal job_running || any_terminal published_events)
stream_job_status_example =
    stream_job_status_lem plain live (codes "j1") jobs_db its_job published_events row_found
      (refl, ground arith)
      ((refl, ground arith), ((refl, ground arith), ((refl, ground arith), tt)))

-- A job that is not there is answered 200, with a text that is no event.
missing_job :
    stream_job_status plain true live (codes "j2") jobs_db true []
    ≡ record { status = 200; body = codes "job not found\n"; returned = true }
unfolding stream_job_status get_job find_job same
missing_job = refl

abbrev at_client : Watch
at_client = record (start jobs_db new_broker) {
  client = subscribed 0;
  broker = (subscribe (codes "j1") new_broker).1;
}

abbrev at_row : Watch
at_row = record at_client { client = looping 0 (get_job live (codes "j1") jobs_db) [] }

abbrev done_db : Db
done_db = record fresh_db {
  jobs =
      record its_job {
        status = job_done;
        progress = pos 100;
        result_url = some (codes "/u");
        updated_at = 1700000000;
      }
      ∷ [];
}

went : mark_job_done live (codes "j1") (codes "/u") jobs_db ≡ ok done_db
unfolding mark_job_done update_jobs same
went = refl

abbrev at_saved : Watch
at_saved = record at_row { db = done_db; publisher = saved }

abbrev with_event : Broker
with_event = record {
  subs = (codes "j1", 0 ∷ []) ∷ [];
  chans = record { capacity = 16; buffer = codes "end" ∷ []; closed = false } ∷ [];
}

abbrev at_end : Watch
at_end = record at_saved { broker = with_event; publisher = sending [] }

at_copy : snapshot (codes "j1") at_saved.broker ≡ 0 ∷ []
unfolding snapshot subscribe subscribers add_subscriber same
at_copy = refl

all_steps : Steps (codes "j1") (codes "end") (start jobs_db new_broker) at_end
unfolding subscribe snapshot subscribers add_subscriber send_one try_send same is_full
all_steps =
    next
      (next
        (next (next (next none_yet (subscribes refl)) (reads live 0 refl refl))
          (saves live (codes "/u") done_db refl went))
        (copies refl))
      (sends 0 [] with_event refl refl)

stream_ends_example :
    row_ends (get_job live (codes "j1") jobs_db)
      || holds (codes "end") []
      || holds (codes "end") (buffer_of 0 with_event.chans)
      || false
    ≡ true
stream_ends_example =
    stream_ends (codes "j1") (codes "end") jobs_db new_broker at_end 0
      (get_job live (codes "j1") jobs_db) [] all_steps refl refl
