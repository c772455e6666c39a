-- ===== src/Store.antt =====
-- internal/store: one database file, with pinned peers, messages, rooms and files.
pub mod Bolt
pub mod Casing
pub mod Rows
pub mod Errors
pub mod Seals
pub mod Meta
pub mod Peers
pub mod Files
pub mod Messages
pub mod Rooms
pub mod Reads
