-- ===== src/Handler/Status.antt =====
-- sse.go and helpers.go: `streamJobStatus`. What comes to the `select` of its loop, one at a time, is a list.
pub mod Events
pub mod Watch
use ol1n_super_app.Base.{
  ℕ, Bool, true, false, not, ◌||◌, Option, none, some, List, [], ◌∷◌, ◌++◌, if◌then◌else◌, Bytes,
  codes, same,
}
use ol1n_super_app.Db.Tables.{
  Job, Db, DbError, not_found, Result, ok, err, Ctx, job_done, job_failed,
}
use ol1n_super_app.Db.Jobs.{get_job}
use ol1n_super_app.Jobs.Worker.{Event, no_event}

-- Package encoding/json, on an event and on the `status` of an event's text.
pub record Json : Type 0 where
  pub marshal : Event → Bytes
  pub unmarshal_status : Bytes → Option Bytes

-- The request is cancelled, the channel is closed, or a payload comes and is written or not.
pub data Input : Type 0 where
  cancelled : Input
  closed : Input
  payload : (written : Bool) → Bytes → Input

pub record Stream : Type 0 where
  pub status : ℕ
  pub body : Bytes
  pub returned : Bool

-- `writeSSE`
abbrev pub frame : Bytes → Bytes
frame raw = codes "data: " ++ raw ++ (10 ∷ 10 ∷ [])

abbrev pub write_sse : Bool → Bytes → Bytes
write_sse written raw = if written then frame raw else []

abbrev pub is_terminal : Bytes → Bool
is_terminal status = same status job_done || same status job_failed

abbrev pub text_or_empty : Option Bytes → Bytes
text_or_empty none = []
text_or_empty (some text) = text

-- The job's row as an event.
abbrev pub state_event : Job → Event
state_event j = record no_event {
  status = j.status;
  progress = j.progress;
  download_url = text_or_empty j.result_url;
  error = text_or_empty j.error_msg;
}

abbrev pub peek_terminal : Option Bytes → Bool
peek_terminal none = false
peek_terminal (some status) = is_terminal status

abbrev pub prepend_body : Bytes → Bytes × Bool → Bytes × Bool
prepend_body text (body, returned) = (text ++ body, returned)

-- The loop: what it writes, and whether it has returned when the inputs end.
unfoldable pub forward : Json → List Input → Bytes × Bool
unfolding same
forward k [] = ([], false)
forward k (cancelled ∷ inputs) = ([], true)
forward k (closed ∷ inputs) = ([], true)
forward k (payload written raw ∷ inputs) =
    let rest = prepend_body (frame raw) (forward k inputs) in
    if not written
    then ([], true)
    else if peek_terminal (k.unmarshal_status raw)
    then (frame raw, true)
    else rest

abbrev pub answered_200 : Bytes × Bool → Stream
answered_200 (body, returned) = record { status = 200; body = body; returned = returned }

-- The header is out when the row is looked up, so `http.Error` only adds its text to the body.
abbrev pub with_state : Json → Bool → List Input → Result Job → Stream
unfolding forward
with_state k written inputs (ok j) =
    let first = write_sse written (k.marshal (state_event j)) in
    answered_200
      (if is_terminal j.status then (first, true) else prepend_body first (forward k inputs))
with_state k written inputs (err not_found) = answered_200 (codes "job not found\n", true)
with_state k written inputs (err e) = answered_200 (forward k inputs)

unfoldable pub stream_job_status :
    Json → (flushes : Bool) → Ctx → Bytes → Db → (written : Bool) → List Input → Stream
unfolding with_state get_job
stream_job_status k flushes c id db written inputs =
    if flushes
    then with_state k written inputs (get_job c id db)
    else record { status = 500; body = codes "streaming unsupported\n"; returned = true }
