-- ===== src/Nntp.antt =====
-- ol1n-vault/internal/nntp.
pub mod Yenc
pub mod Segments
pub mod Nzb
pub mod Pool
pub mod Session
pub mod Commands
