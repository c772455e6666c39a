-- ===== src/Node/Rooms/Mail.antt =====
-- What handleRoomEvent, handleRoomMsg and handleRoomAck of internal/node/rooms.go do leaves the
-- messages to peers as they are.
use chirp.Prelude.{refl, ◌++◌, [], ◌∷◌, List, Text, ok, err, arith, Result-cases, inl, inr}
use chirp.Crypto.Aead.{Aead}
use chirp.Proto.Envelope.{Envelope, EventKind}
use chirp.Store.Bolt.{Bolt}
use chirp.Store.Casing.{Casing}
use chirp.Store.Rows.{Room, Store}
use chirp.Store.Errors.{Res}
use chirp.Store.Messages.Mail.{Apart}
use chirp.Store.Rooms.{get_room, update_room, create_room}
use chirp.Store.Rooms.Mail.{
  update_room-Apart, create_room-Apart, delete_room-Apart, add_room_message-Apart,
  mark_room_delivered-Apart,
}
use chirp.Node.Members.{sort_strings, remove_peer}
use chirp.Node.Rooms.{
  or_same, take_create, on_create, on_join, on_remove, on_leave, on_rename, on_event, announced,
  invited, inbound, handle_room_event, handle_room_msg, handle_room_ack,
}

module _ ⦃bolt : Bolt⦄ ⦃casing : Casing⦄ ⦃a : Aead⦄ where
  updated-Apart :
      (nonce : Text) (r : Room) (s : Store) → Apart (or_same s (update_room nonce r s)).db s.db
  unfolding or_same
  updated-Apart nonce r s = elim (Result-cases (update_room nonce r s)) [
    | inr (x, e) ↦ ground arith
    | inl (t, e) ↦ ground (arith, update_room-Apart nonce r s t e)
  ]

  created-Apart :
      (nonce : Text) (r : Room) (s : Store) → Apart (or_same s (create_room nonce r s)).db s.db
  unfolding or_same
  created-Apart nonce r s = elim (Result-cases (create_room nonce r s)) [
    | inr (x, e) ↦ ground arith
    | inl (t, e) ↦ ground (arith, create_room-Apart nonce r s t e)
  ]

  take_create-Apart :
      (nonce actor : Text) (e : Envelope) (members : List Text) (r : Res Room) (s : Store)
      → Apart (take_create nonce actor e members r s).db s.db
  unfolding take_create
  take_create-Apart nonce actor e members (ok r) s =
      ground (arith, updated-Apart nonce (record r { name = e.room_name; members = members }) s)
  take_create-Apart nonce actor e members (err x) s =
      created-Apart nonce (invited actor e members) s

  on_create-Apart :
      (nonce me actor : Text) (e : Envelope) (s : Store)
      → Apart (on_create nonce me actor e s).db s.db
  unfolding on_create
  on_create-Apart nonce me actor e s =
      ground (arith, take_create-Apart nonce actor e (announced me actor e) (get_room e.room s) s)

  on_join-Apart :
      (nonce actor : Text) (e : Envelope) (r : Room) (s : Store)
      → Apart (on_join nonce actor e r s).db s.db
  unfolding on_join
  on_join-Apart nonce actor e r s = ground (
    arith,
    updated-Apart nonce (record r { members = sort_strings (r.members ++ e.room_actor ∷ []) }) s,
  )

  on_remove-Apart :
      (nonce me actor : Text) (e : Envelope) (r : Room) (s : Store)
      → Apart (on_remove nonce me actor e r s).db s.db
  unfolding on_remove
  on_remove-Apart nonce me actor e r s = ground (
    arith,
    updated-Apart nonce (record r { members = remove_peer r.members e.room_actor }) s,
    delete_room-Apart e.room s,
  )

  on_leave-Apart :
      (nonce me actor : Text) (e : Envelope) (r : Room) (s : Store)
      → Apart (on_leave nonce me actor e r s).db s.db
  unfolding on_leave
  on_leave-Apart nonce me actor e r s = ground (
    arith,
    updated-Apart nonce (record r { members = remove_peer r.members actor }) s,
    delete_room-Apart e.room s,
  )

  on_rename-Apart :
      (nonce actor : Text) (e : Envelope) (r : Room) (s : Store)
      → Apart (on_rename nonce actor e r s).db s.db
  unfolding on_rename
  on_rename-Apart nonce actor e r s =
      ground (arith, updated-Apart nonce (record r { name = e.room_name }) s)

  on_event-Apart :
      (k : EventKind) (nonce me actor : Text) (e : Envelope) (r : Res Room) (s : Store)
      → Apart (on_event k nonce me actor e r s).db s.db
  unfolding on_event
  on_event-Apart EventKind.create nonce me actor e r s = on_create-Apart nonce me actor e s
  on_event-Apart EventKind.join nonce me actor e (ok r) s = on_join-Apart nonce actor e r s
  on_event-Apart EventKind.remove nonce me actor e (ok r) s = on_remove-Apart nonce me actor e r s
  on_event-Apart EventKind.leave nonce me actor e (ok r) s = on_leave-Apart nonce me actor e r s
  on_event-Apart EventKind.rename nonce me actor e (ok r) s = on_rename-Apart nonce actor e r s
  on_event-Apart (EventKind.unknown x) nonce me actor e (ok r) s = ((refl, refl, refl, refl), refl)
  on_event-Apart k nonce me actor e (err x) s = ground arith

  pub handle_room_event-Apart :
      (nonce me actor : Text) (e : Envelope) (s : Store)
      → Apart (handle_room_event nonce me actor e s).db s.db
  unfolding handle_room_event
  handle_room_event-Apart nonce me actor e s =
      on_event-Apart e.room_event nonce me actor e (get_room e.room s) s

  pub handle_room_msg-Apart :
      (nonce me actor : Text) (e : Envelope) (s : Store)
      → Apart (handle_room_msg nonce me actor e s).1.db s.db
  unfolding handle_room_msg
  handle_room_msg-Apart nonce me actor e s =
      ground (arith, add_room_message-Apart nonce (inbound actor e) s)

  pub handle_room_ack-Apart :
      (actor : Text) (e : Envelope) (s : Store) → Apart (handle_room_ack actor e s).db s.db
  unfolding handle_room_ack
  handle_room_ack-Apart actor e s = ground (arith, mark_room_delivered-Apart e.room actor e.id s)
