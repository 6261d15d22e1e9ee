-- ===== src/Tests/Events.antt =====
-- superol1n/internal/modules/events: the theorem at a concrete input.
use ol1n_super_app.Base.{◌≢◌, refl, false, [], ◌∷◌, codes}
use ol1n_super_app.Events.Hub.{
  Message, away, subscribed, sending, subscribe, broadcast, send_next, panics, move, System, turn,
  Reach, here, later,
}
use ol1n_super_app.Events.Hub.Safety.Reachable.{hub_never_panics}

abbrev grabbed : Message
grabbed = record { kind = codes "sonarr.Grab"; payload = codes "{}"; time = 1 }

-- One goroutine has subscribed, the other is about to send to it.
abbrev busy : System
busy = record {
  hub = record {
    readers = 1;
    clients = 0 ∷ [];
    chans = record { capacity = 32; buffer = []; closed = false } ∷ [];
  };
  routines = subscribed 0 ∷ sending grabbed (0 ∷ []) ∷ [];
}

busy-Reach : Reach 2 busy
unfolding move
busy-Reach =
    later (later here (turn [] (away ∷ []) subscribe away {g' = subscribed 0} refl refl))
      (turn (subscribed 0 ∷ []) [] (broadcast 5 grabbed) away refl refl)

hub_never_panics_example : move send_next busy.hub (sending grabbed (0 ∷ [])) ≢ panics
hub_never_panics_example =
    hub_never_panics (subscribed 0 ∷ []) [] (sending grabbed (0 ∷ [])) send_next busy-Reach refl
