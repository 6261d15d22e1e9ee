-- ===== src/Go.antt =====
-- What the program uses of Go's standard library: strings, strconv, hash/crc32.
pub mod Strings
pub mod Spaces
pub mod Channels
pub mod Textproto
pub mod Crc
pub mod Hex
pub mod Numbers
pub mod Query
