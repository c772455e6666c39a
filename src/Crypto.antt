-- ===== src/Crypto.antt =====
-- internal/crypto/crypto.go: the envelope in which values are kept at rest.
pub mod Aead
pub mod Sealed
pub mod Laws
