-- ===== src/Gateway.antt =====
-- superol1n: the gateway.
pub mod Http
pub mod Middleware
pub mod Access
pub mod Chat
pub mod Streaming
pub mod Sabnzbd
pub mod Nim
pub mod Proxy
