-- ===== src/Identity.antt =====
-- internal/identity: names, fingerprints, passphrases.
pub mod Fingerprint
pub mod Names
pub mod Backup
