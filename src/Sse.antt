-- ===== src/Sse.antt =====
-- ol1n-vault/internal/sse: the broker of job events.
pub mod Broker
