-- ===== src/Events.antt =====
-- superol1n/internal/modules/events: the events of the gateway.
pub mod Hub
pub mod Handler
