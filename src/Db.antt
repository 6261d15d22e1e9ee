-- ===== src/Db.antt =====
-- ol1n-vault/internal/db: the tables and the statements on them.
pub mod Tables
pub mod Artifacts
pub mod Jobs
pub mod Tokens
pub mod Integrity
