-- ===== src/Node.antt =====
-- internal/node: what a node does with the envelopes of a session, and its rooms.
pub mod Transfer
pub mod Members
pub mod Rooms
pub mod OwnRooms
pub mod Link
pub mod Dialing
pub mod Sessions
pub mod Outbox
pub mod Invite
pub mod RoomPosts
pub mod Views
pub mod Events
pub mod Announcing
pub mod OwnInvite
pub mod RoomViews
pub mod Roster
pub mod Ticks
