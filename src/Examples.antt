-- ===== src/Examples.antt =====
-- Concrete runs of the program: the packages it only calls are given by small functions.
mod Buckets
mod Setup
mod Data
mod Wire
mod Messages
mod Peers
mod Transfers
mod RoomEvents
mod Sessions
mod Secrets
mod Sending
mod Search
mod Handshakes
mod Running
mod Requests
mod Acting
