-- ===== src/Storage.antt =====
-- ol1n-vault/internal/storage.
pub mod Cleaner
