-- ===== src/Events/Handler.antt =====
-- superol1n/internal/modules/events/handler.go: the handler of the webhooks, and the loop that writes to a
-- web socket. What comes to the `select` of that loop, one at a time, is a list.
use ol1n_super_app.Base.{
  ℕ, ◌^◌, Bool, true, false, Option, none, some, List, [], ◌∷◌, ◌++◌, if◌then◌else◌, Bytes, codes,
  take,
}
use ol1n_super_app.Go.Strings.{is_nil}
use ol1n_super_app.Events.Hub.{Message}

abbrev or_if_empty : Bytes → Bytes → Bytes
or_if_empty text other = if is_nil text then other else text

-- The status, and what is broadcast. `sent` is the body, `none` for one whose reading fails.
abbrev with_body : Bytes → (Bytes → Bytes) → ℕ → Option Bytes → ℕ × Option Message
with_body source header now none = (400, none)
with_body source header now (some body) = (
  204,
  some (record {
    kind =
        source
        ++ (codes "."
            ++ or_if_empty
                (or_if_empty (header (codes "X-Sonarr-Event")) (header (codes "X-Radarr-Event")))
                (codes "unknown"));
    payload = take (2 ^ 20) body;
    time = now;
  }),
)

unfoldable pub webhook : Bytes → (Bytes → Bytes) → ℕ → Option Bytes → ℕ × Option Message
webhook source header now sent = with_body source header now sent

-- The reader's goroutine has ended; the ticker; the channel is closed; or an event. The flag is whether
-- the write succeeds.
pub data Input : Type 0 where
  reader_done closed : Input
  tick : Bool → Input
  event : Bool → Message → Input

pub data Frame : Type 0 where
  ping : Frame
  text : Bytes → Frame

-- The error of `Marshal` is dropped, and the frame is empty then.
abbrev frame_of : Option Bytes → Frame
frame_of none = text []
frame_of (some raw) = text raw

abbrev written_first : Bool → Frame → List Frame × Bool → List Frame × Bool
written_first false frame rest = ([], true)
written_first true frame (frames, returned) = (frame ∷ frames, returned)

-- What is written, and whether the handler has returned.
unfoldable pub write_loop : (Message → Option Bytes) → List Input → List Frame × Bool
write_loop marshal [] = ([], false)
write_loop marshal (reader_done ∷ inputs) = ([], true)
write_loop marshal (closed ∷ inputs) = ([], true)
write_loop marshal (tick written ∷ inputs) = written_first written ping (write_loop marshal inputs)
write_loop marshal (event written e ∷ inputs) =
    written_first written (frame_of (marshal e)) (write_loop marshal inputs)
