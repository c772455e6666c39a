-- ===== src/Node/OwnRooms.antt =====
-- What the user does to a room: AddRoomMember, RemoveRoomMember, LeaveRoom, RenameRoom,
-- AcceptRoomInvite and DeclineRoomInvite of internal/node/rooms.go. `reaches` says to which names
-- there is a session that speaks rooms; what is sent is the list of names and envelopes.
pub mod Caseless
pub mod Mail
use chirp.Prelude.{
  ℕ, Bool, true, false, ◌&&◌, ◌||◌, not, List, [], ◌∷◌, ◌++◌, Text, text_eq, Option, none, some,
  Result, ok, err, ◌>>=◌, ◌>>◌, guard, wrap, leb, ltb, length, if◌then◌else◌,
}
use chirp.Prelude.Int.{ℤ, pos}
use chirp.Crypto.Aead.{Aead}
use chirp.Proto.Envelope.{
  Envelope, MsgType, roomevent, EventKind, join, leave, remove, rename, create,
}
use chirp.Store.Bolt.{Bolt}
use chirp.Store.Casing.{Casing}
use chirp.Store.Rows.{Peer, Room, joined, pending, Db, Store, Keys}
use chirp.Store.Errors.{StoreError, Res}
use chirp.Store.Peers.{get_peer}
use chirp.Store.Rooms.{max_room_members, is_pending, get_room, update_room, delete_room}
use chirp.Node.Members.{is_member, sort_strings}
use chirp.Node.Transfer.{bare}

pub data NodeError : Type 0 where
  store : StoreError → NodeError
  not_creator already_member room_full self_removal not_member name_required already_joined :
      NodeError
  not_pinned : NodeError

abbrev pub Sent : Type 0
Sent = List (Text × Envelope)

-- The list without one name, by ==.
unfoldable pub without : Text → List Text → List Text
without name [] = []
without name (m ∷ l) = let rest = without name l in if text_eq m name then rest else m ∷ rest

unfoldable pub is_pinned : Res Peer → Bool
is_pinned (ok p) = true
is_pinned (err e) = false

-- The first name that is not ours.
heir : Text → Text → List Text → Text
heir me owner [] = owner
heir me owner (m ∷ l) = let rest = heir me owner l in if text_eq m me then rest else m

pub room_event : Text → ℤ → EventKind → Text → Text → List Text → Envelope
room_event room now k actor name members = record (bare roomevent) {
  room = room;
  room_event = k;
  room_actor = actor;
  room_name = name;
  room_members = members;
  ts = now;
}

-- sendRoomEvent, to one name and to each of a list.
pub send_event : (Text → Bool) → Text → Envelope → Sent
send_event reaches member e = if reaches member then (member, e) ∷ [] else []

pub send_all : (Text → Bool) → List Text → Envelope → Sent
unfolding send_event
send_all reaches [] e = []
send_all reaches (m ∷ l) e = send_event reaches m e ++ send_all reaches l e

module _ ⦃bolt : Bolt⦄ ⦃a : Aead⦄ where
  own_room : Text → Text → Store → Result NodeError Room
  own_room id me s = do
    r ← wrap NodeError.store (get_room id s)
    guard (text_eq r.created_by me) not_creator
    ok r

  unfoldable pub rename_room :
      (Text → Bool) → Text → ℤ → Text → Text → Text → Store → Result NodeError (Sent × Store)
  unfolding own_room send_all without room_event
  rename_room reaches nonce now me id name s = do
    guard (not (text_eq name [])) name_required
    r ← own_room id me s
    t ← wrap NodeError.store (update_room nonce (record r { name = name }) s)
    ok (send_all reaches (without me r.members) (room_event id now rename me name []), t)

  module _ ⦃casing : Casing⦄ where
    unfoldable pub add_room_member :
        (Text → Bool) → Text → ℤ → Text → Text → Text → Store → Result NodeError (Sent × Store)
    unfolding own_room is_pinned send_event send_all room_event
    add_room_member reaches nonce now me id name s = do
      r ← own_room id me s
      guard (not (is_member r.members name)) already_member
      guard (ltb (length r.members) max_room_members) room_full
      guard (is_pinned (get_peer s name)) not_pinned
      let members = sort_strings (r.members ++ name ∷ [])
      t ← wrap NodeError.store (update_room nonce (record r { members = members }) s)
      let told = without name (without me members)
      ok (
        send_event reaches name (room_event id now create me r.name members)
            ++ send_all reaches told (room_event id now join name [] []),
        t,
      )

    unfoldable pub remove_room_member :
        (Text → Bool) → Text → ℤ → Text → Text → Text → Store → Result NodeError (Sent × Store)
    unfolding own_room send_event send_all room_event
    remove_room_member reaches nonce now me id name s = do
      r ← own_room id me s
      guard (not (text_eq name me)) self_removal
      guard (is_member r.members name) not_member
      let members = without name r.members
      t ← wrap NodeError.store (update_room nonce (record r { members = members }) s)
      let told = without name (without me members)
      ok (
        send_event reaches name (room_event id now remove name [] [])
            ++ send_all reaches told (room_event id now remove name [] []),
        t,
      )

    -- The owner that leaves names another one, in its own row.
    left : Text → Room → Room
    unfolding heir
    left me r = record r {
      created_by =
          if text_eq r.created_by me && ltb 1 (length r.members)
          then heir me r.created_by r.members
          else r.created_by;
      members = without me r.members;
    }

    is_nil : List Text → Bool
    is_nil [] = true
    is_nil (m ∷ l) = false

    unfoldable pub leave_room :
        (Text → Bool) → Text → ℤ → Text → Text → Store → Result NodeError (Sent × Store)
    unfolding left is_nil send_all room_event
    leave_room reaches nonce now me id s = do
      r ← wrap NodeError.store (get_room id s)
      guard (is_member r.members me) not_member
      let q = left me r
      t ←
          if is_nil q.members
          then ok (delete_room id s)
          else wrap NodeError.store (update_room nonce q s)
      ok (send_all reaches q.members (room_event id now leave me [] []), t)

    unfoldable pub accept_room_invite :
        (Text → Bool) → Text → ℤ → Text → Text → Store → Result NodeError (Sent × Store)
    unfolding send_all room_event
    accept_room_invite reaches nonce now me id s = do
      r ← wrap NodeError.store (get_room id s)
      guard (is_member r.members me || not (is_pending r)) not_member
      t ←
          if is_pending r
          then wrap NodeError.store (update_room nonce (record r { state = joined }) s)
          else ok s
      ok (
        if is_pending r
            then send_all reaches (without me r.members) (room_event id now join me [] [])
            else [],
        t,
      )

    unfoldable pub decline_room_invite :
        (Text → Bool) → ℤ → Text → Text → Store → Result NodeError (Sent × Store)
    unfolding send_all room_event
    decline_room_invite reaches now me id s = do
      r ← wrap NodeError.store (get_room id s)
      guard (is_pending r) already_joined
      ok (
        send_all reaches (without me r.members) (room_event id now leave me [] []),
        delete_room id s,
      )
