-- ===== src/Nntp/Yenc.antt =====
-- ol1n-vault/internal/nntp/yenc.go: article bodies in yEnc.
pub mod Encode
pub mod Decode
pub mod Pieces
pub mod Keywords
pub mod Headers
pub mod Lines
pub mod Text
pub mod RoundTrip
pub mod Wire
