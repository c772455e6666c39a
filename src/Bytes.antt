-- ===== src/Bytes.antt =====
-- What the program takes from Go's unicode/utf8 and encoding/hex, over bytes.
pub mod Utf8
pub mod Hex
pub mod Base64
pub mod Strings
