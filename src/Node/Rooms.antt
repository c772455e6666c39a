-- ===== src/Node/Rooms.antt =====
-- handleRoomEvent, handleRoomMsg and handleRoomAck of internal/node/rooms.go: what a session's peer
-- can do to the rooms. `me` is n.id.Name and `actor` the name that the session has authenticated.
-- Events and log lines are left out.
pub mod Authority
pub mod Admission
pub mod Capacity
pub mod Mail
use chirp.Prelude.{
  ℕ, suc, Bool, true, false, ◌&&◌, ◌||◌, not, List, [], ◌∷◌, ◌++◌, Text, text_eq, Option, none,
  some, Result, ok, err, leb, length, if◌then◌else◌,
}
use chirp.Prelude.Int.{ℤ, pos}
use chirp.Crypto.Aead.{Aead}
use chirp.Proto.Envelope.{
  Envelope, MsgType, roomack, EventKind, join, leave, remove, rename, create,
}
use chirp.Store.Bolt.{Bolt}
use chirp.Store.Casing.{Casing}
use chirp.Store.Rows.{
  Room, joined, pending, RoomMessage, Dir, dir_in, Status, received, Db, Store, Keys,
}
use chirp.Store.Errors.{Res}
use chirp.Store.Rooms.{
  max_room_members, is_pending, get_room, update_room, create_room, delete_room, add_room_message,
  mark_room_delivered,
}
use chirp.Node.Members.{is_member, remove_peer, dedupe_members, sort_strings}
use chirp.Node.Transfer.{bare}

module _ ⦃bolt : Bolt⦄ ⦃casing : Casing⦄ ⦃a : Aead⦄ where
  -- An error of the store is logged or ignored, and leaves the store as it was.
  unfoldable pub or_same : Store → Res Store → Store
  or_same s (ok t) = t
  or_same s (err e) = s

  -- The room that an invitation makes.
  abbrev pub invited : Text → Envelope → List Text → Room
  invited actor e members = record {
    id = e.room;
    name = e.room_name;
    members = members;
    created_by = actor;
    created_at = e.ts;
    state = pending;
  }

  abbrev is_nil : List Text → Bool
  is_nil [] = true
  is_nil (m ∷ l) = false

  abbrev pub announced : Text → Text → Envelope → List Text
  announced me actor e =
      dedupe_members (if is_nil e.room_members then actor ∷ me ∷ [] else e.room_members)

  -- A room that is here may be refreshed by its creator; a new one is an invitation.
  unfoldable pub take_create : Text → Text → Envelope → List Text → Res Room → Store → Store
  unfolding or_same
  take_create nonce actor e members (ok r) s =
      if text_eq actor r.created_by
      then or_same s (update_room nonce (record r { name = e.room_name; members = members }) s)
      else s
  take_create nonce actor e members (err x) s =
      or_same s (create_room nonce (invited actor e members) s)

  unfoldable pub on_create : Text → Text → Text → Envelope → Store → Store
  on_create nonce me actor e s =
      let members = announced me actor e in
      if not (is_member members me)
      then s
      else if leb (length members) max_room_members
      then take_create nonce actor e members (get_room e.room s) s
      else s

  unfoldable pub on_join : Text → Text → Envelope → Room → Store → Store
  unfolding or_same
  on_join nonce actor e r s =
      if casing.equal_fold actor e.room_actor
      then s
      else if not (text_eq actor r.created_by)
      then s
      else if is_member r.members e.room_actor
      then s
      else if leb max_room_members (length r.members)
      then s
      else or_same s (
          update_room nonce (record r { members = sort_strings (r.members ++ e.room_actor ∷ []) })
            s)

  unfoldable pub on_remove : Text → Text → Text → Envelope → Room → Store → Store
  unfolding or_same
  on_remove nonce me actor e r s =
      if not (text_eq actor r.created_by)
      then s
      else if text_eq e.room_actor me
      then delete_room e.room s
      else if is_member r.members e.room_actor
      then or_same s
          (update_room nonce (record r { members = remove_peer r.members e.room_actor }) s)
      else s

  unfoldable pub on_leave : Text → Text → Text → Envelope → Room → Store → Store
  unfolding or_same
  on_leave nonce me actor e r s =
      if text_eq actor me
      then delete_room e.room s
      else if is_member r.members actor
      then or_same s (update_room nonce (record r { members = remove_peer r.members actor }) s)
      else s

  unfoldable pub on_rename : Text → Text → Envelope → Room → Store → Store
  unfolding or_same
  on_rename nonce actor e r s =
      if not (text_eq actor r.created_by)
      then s
      else or_same s (update_room nonce (record r { name = e.room_name }) s)

  -- An event for a room that cannot be loaded is dropped, unless it creates the room.
  unfoldable pub on_event : EventKind → Text → Text → Text → Envelope → Res Room → Store → Store
  on_event create nonce me actor e r s = on_create nonce me actor e s
  on_event join nonce me actor e (ok r) s = on_join nonce actor e r s
  on_event remove nonce me actor e (ok r) s = on_remove nonce me actor e r s
  on_event leave nonce me actor e (ok r) s = on_leave nonce me actor e r s
  on_event rename nonce me actor e (ok r) s = on_rename nonce actor e r s
  on_event _ nonce me actor e r s = s

  unfoldable pub handle_room_event : Text → Text → Text → Envelope → Store → Store
  handle_room_event nonce me actor e s =
      on_event e.room_event nonce me actor e (get_room e.room s) s

  abbrev pub inbound : Text → Envelope → RoomMessage
  inbound actor e = record {
    id = e.id;
    room = e.room;
    sender = actor;
    dir = dir_in;
    body = e.body;
    ts = e.ts;
    status = received;
    attempts = 0;
    last_try = 0;
    seq = 0;
    reply_to = [];
    sender_seq = e.seq;
    reactions = [];
  }

  -- Whether the message may be stored.
  unfoldable pub admits : Text → Text → Res Room → Bool
  admits me actor (err x) = false
  admits me actor (ok r) = is_member r.members actor && is_member r.members me && not (is_pending r)

  unfoldable pub ack_unless : Envelope → Res (Option RoomMessage × Bool) → List Envelope
  ack_unless e (err x) = []
  ack_unless e (ok r) = record (bare roomack) { id = e.id; room = e.room } ∷ []

  -- What is sent back, and the store.
  unfoldable pub handle_room_msg : Text → Text → Text → Envelope → Store → List Envelope × Store
  unfolding ack_unless
  handle_room_msg nonce me actor e s =
      let (r, t) = add_room_message nonce (inbound actor e) s in
      if admits me actor (get_room e.room s) then (ack_unless e r, t) else ([], s)

  knows_member : Text → Res Room → Bool
  knows_member actor (err x) = false
  knows_member actor (ok r) = is_member r.members actor

  unfoldable pub handle_room_ack : Text → Envelope → Store → Store
  unfolding knows_member
  handle_room_ack actor e s =
      if knows_member actor (get_room e.room s)
      then (mark_room_delivered e.room actor e.id s).1
      else s
