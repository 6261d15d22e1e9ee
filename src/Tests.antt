-- ===== src/Tests.antt =====
-- The theorems at concrete inputs.
mod Nntp
mod Db
mod Handler
mod Pool
mod Sse
mod Files
mod Events
mod Jobs
mod Config
mod Storage
mod Commands
mod Gateway
mod Keys
mod Streams
mod Services
mod Workers
