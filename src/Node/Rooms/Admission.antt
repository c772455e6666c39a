-- ===== src/Node/Rooms/Admission.antt =====
-- Who can write to a room.
use chirp.Prelude.{
  suc, ◌≤◌, ◌&&◌, leb, if◌then◌else◌, ◌≡◌, ◌⊎◌, true, false, [], ◌∷◌, Text, text_eq_refl, none,
  some, ok, err, length, arith, Option-cases, Result-cases, inl, inr,
}
use chirp.Crypto.Aead.{Aead}
use chirp.Proto.Envelope.{Envelope, EventKind}
use chirp.Store.Bolt.{Bolt}
use chirp.Store.Casing.{Casing}
use chirp.Store.Rows.{Room, pending, Store}
use chirp.Store.Errors.{StoreError}
use chirp.Store.Seals.{encrypt_string, decrypt_string}
use chirp.Store.Rooms.{
  room_msg_key, get_room, decrypt_room, create_room, put_room, max_room_members, add_room_message,
  add_room_row, stored_room_msg,
}
use chirp.Node.Members.{is_member}
use chirp.Node.Rooms.{
  invited, announced, on_event, on_create, take_create, or_same, handle_room_event, admits,
  ack_unless, handle_room_msg, knows_member, handle_room_ack,
}

module _ ⦃bolt : Bolt⦄ ⦃casing : Casing⦄ ⦃a : Aead⦄ where
  -- A room message for a room that cannot be loaded, or that the peer or we are not in, or whose
  -- invitation has not been answered, stores nothing and is not acknowledged.
  handle_room_msg-refused :
      (nonce me actor : Text) (e : Envelope) (r : Room) (x : StoreError) (s : Store)
      → (get_room e.room s ≡ err x)
        ⊎ ((get_room e.room s ≡ ok r)
            × ((is_member r.members actor ≡ false)
                ⊎ (is_member r.members me ≡ false)
                ⊎ (r.state ≡ pending)))
      → handle_room_msg nonce me actor e s ≡ ([], s)
  unfolding handle_room_msg admits
  handle_room_msg-refused nonce me actor e r x s h = ground arith

  -- A message for a room that can be read, with a body that can be encrypted, that was stored and
  -- acknowledged is acknowledged in the same way when it comes again, and changes nothing then.
  handle_room_msg-again :
      (nonce nonce' body body' me actor : Text) (e : Envelope) (r : Room) (ack : Envelope)
      (s t : Store)
      → get_room e.room s ≡ ok r
      → handle_room_msg nonce me actor e s ≡ (ack ∷ [], t)
      → encrypt_string nonce s.keys e.body ≡ ok body
      → encrypt_string nonce' s.keys e.body ≡ ok body'
      → handle_room_msg nonce' me actor e t ≡ (ack ∷ [], t)
  unfolding handle_room_msg admits ack_unless add_room_message add_room_row stored_room_msg get_room
  handle_room_msg-again nonce nonce' body body' me actor e r ack s t g h c c' =
      elim (Option-cases (bolt.get s.db.room_idx e.id)) [
        | inr (k, i) ↦ ground arith
        | inl i ↦ ground (
          arith,
          bolt.get-put s.db.room_idx e.id e.id (room_msg_key e.room (suc s.db.room_msgs_seq)),
          text_eq_refl e.id,
        )
      ]

  -- An acknowledgement for a room that the peer is not in changes nothing.
  handle_room_ack-outsider :
      (actor : Text) (e : Envelope) (r : Room) (s : Store)
      → get_room e.room s ≡ ok r
      → is_member r.members actor ≡ false
      → handle_room_ack actor e s ≡ s
  unfolding handle_room_ack knows_member
  handle_room_ack-outsider actor e r s g o = ground arith

  -- A room that a create event puts into a store that had none under its id is pending, is owned by
  -- the peer that sent the event, has us as a member, and has at most 32 members.
  invitation-pending :
      (nonce me actor : Text) (e : Envelope) (q : Room) (s : Store)
      → e.room_event ≡ EventKind.create
      → bolt.get s.db.rooms e.room ≡ none
      → bolt.get (handle_room_event nonce me actor e s).db.rooms e.room ≡ some q
      → (q.state ≡ pending)
        × (q.created_by ≡ actor)
        × (is_member q.members me ≡ true)
        × (length q.members ≤ max_room_members)
  unfolding handle_room_event on_event on_create take_create or_same create_room put_room get_room
  invitation-pending nonce me actor e q s c n h =
      let room = invited actor e (announced me actor e) in
      elim (Result-cases (encrypt_string nonce s.keys e.room_name)) [
        | inr (x, f) ↦ absurd (ground arith)
        | inl (name, f) ↦ ground (
          arith,
          bolt.get-put s.db.rooms e.room e.room (record room { name = name }),
          text_eq_refl e.room,
        )
      ]

  -- Let a room be stored whose name does not decrypt, and the name of a create event encrypt. Then
  -- a create event from any peer, whoever owned the room, replaces the row by a pending one that
  -- the peer owns, with the members it lists, if these have us among them and are at most 32, and
  -- otherwise leaves the row as it was; the messages of rooms stay in both cases.
  pub unreadable-seized :
      (nonce me actor body : Text) (e : Envelope) (old : Room) (x : StoreError) (s : Store)
      → e.room_event ≡ EventKind.create
      → bolt.get s.db.rooms e.room ≡ some old
      → decrypt_string s.keys old.name ≡ err x
      → encrypt_string nonce s.keys e.room_name ≡ ok body
      → (bolt.get (handle_room_event nonce me actor e s).db.rooms e.room ≡ (
          if is_member (announced me actor e) me && leb (length (announced me actor e)) 32
          then some (record {
            id = e.room;
            name = body;
            members = announced me actor e;
            created_by = actor;
            created_at = e.ts;
            state = pending;
          })
          else some old))
        × ((handle_room_event nonce me actor e s).db.room_msgs ≡ s.db.room_msgs)
  unfolding handle_room_event on_event on_create take_create or_same create_room put_room get_room
      decrypt_room
  unreadable-seized nonce me actor body e old x s c g d n = ground (
    arith,
    bolt.get-put s.db.rooms e.room e.room
        (record (invited actor e (announced me actor e)) { name = body }),
    text_eq_refl e.room,
  )
