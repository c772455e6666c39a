-- ===== src/Node/RoomViews.antt =====
-- Rooms, memberOnline and GetRoom of internal/node/rooms.go: a room as it is shown, with who is
-- reachable and its last message. `live` says which lower-cased names have a session.
use chirp.Prelude.{Bool, ◌||◌, List, [], ◌∷◌, Text, Option, none, some, ok, err, ◌>>=◌}
use chirp.Prelude.Int.{pos}
use chirp.Crypto.Aead.{Aead}
use chirp.Store.Bolt.{Bolt}
use chirp.Store.Casing.{Casing}
use chirp.Store.Rows.{Room, RoomMessage, Store}
use chirp.Store.Errors.{Res}
use chirp.Store.Rooms.{get_room}
use chirp.Store.Reads.{list_rooms, room_messages}

pub record RoomView : Type 0 where
  pub room : Room
  pub members : List (Text × Bool)
  pub last : Option RoomMessage

-- We are always reachable to ourselves.
unfoldable pub member_online : ⦃casing : Casing⦄ → (Text → Bool) → Text → Text → Bool
member_online ⦃casing⦄ live me name = casing.equal_fold name me || live (casing.to_lower name)

unfoldable pub members_online :
    ⦃casing : Casing⦄ → (Text → Bool) → Text → List Text → List (Text × Bool)
members_online live me [] = []
members_online live me (m ∷ l) = (m, member_online live me m) ∷ members_online live me l

-- The last of the messages that are read, or none where they cannot be read.
unfoldable pub last_of : Res (List RoomMessage) → Option RoomMessage
last_of (err e) = none
last_of (ok []) = none
last_of (ok (m ∷ l)) = let rest = last_of (ok l) in elim rest [ none ↦ some m | some n ↦ some n ]

module _ ⦃bolt : Bolt⦄ ⦃casing : Casing⦄ ⦃a : Aead⦄ where
  unfoldable pub room_view : (Text → Bool) → Text → Store → Room → RoomView
  room_view live me s r = record {
    room = r;
    members = members_online live me r.members;
    last = last_of (room_messages r.id (pos 1) s);
  }

  unfoldable pub view_each : (Text → Bool) → Text → Store → List Room → List RoomView
  view_each live me s [] = []
  view_each live me s (r ∷ l) = room_view live me s r ∷ view_each live me s l

  unfoldable pub rooms : (Text → Bool) → Text → Store → Res (List RoomView)
  rooms live me s = do l ← list_rooms s; ok (view_each live me s l)

  unfoldable pub room_shown : (Text → Bool) → Text → Text → Store → Res RoomView
  room_shown live me id s = do r ← get_room id s; ok (room_view live me s r)
