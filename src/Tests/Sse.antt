-- ===== src/Tests/Sse.antt =====
-- ol1n-vault/internal/sse: the theorem at a concrete input.
use ol1n_super_app.Base.{◌≡◌, none, some, codes}
use ol1n_super_app.Sse.Broker.{
  Broker, new_broker, subscribe, unregister, close_channel, snapshot, send_all,
}
use ol1n_super_app.Sse.Broker.Race.{publish_race}

publish_race_example :
    (closed : Broker) × (close_channel (subscribe (codes "j1") new_broker).0 (
        unregister
          (codes "j1")
          (subscribe (codes "j1") new_broker).0
          (subscribe (codes "j1") new_broker).1)
      ≡ some closed)
    × (send_all (codes "{}") (snapshot (codes "j1") (subscribe (codes "j1") new_broker).1) closed
        ≡ none)
publish_race_example = publish_race (codes "j1") (codes "{}") new_broker
