-- ===== src/Handler.antt =====
-- ol1n-vault/internal/handler: the HTTP handlers.
pub mod Gate
pub mod Download
pub mod Upload
pub mod Webhook
pub mod Filename
pub mod Status
