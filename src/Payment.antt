-- ===== src/Payment.antt =====
-- ol1n-vault/internal/payment: the signature of a payment notice.
pub mod Json
pub mod Verify
pub mod Invoice
