-- ===== src/Node/RoomPosts/Mail.antt =====
-- What the user says in rooms (internal/node/rooms.go) leaves the messages to peers as they are.
use chirp.Prelude.{
  refl, Bool, true, false, List, [], ◌∷◌, Text, Option, ok, err, arith, Result-cases, inl, inr,
}
use chirp.Prelude.Int.{ℤ}
use chirp.Crypto.Aead.{Aead}
use chirp.Store.Bolt.{Bolt}
use chirp.Store.Casing.{Casing}
use chirp.Store.Rows.{Room, RoomMessage, Db, Store}
use chirp.Store.Errors.{Res}
use chirp.Store.Messages.Mail.{Apart}
use chirp.Store.Rooms.{next_sender_seq, add_room_message, create_room}
use chirp.Store.Rooms.Outbox.{room_pending, room_record_attempt, add_room_member_to_outbox}
use chirp.Store.Rooms.Mail.{
  create_room-Apart, add_room_message-Apart, toggle_room_reaction-Apart, room_record_attempt-Apart,
  add_room_member_to_outbox-Apart,
}
use chirp.Node.Members.{dedupe_members}
use chirp.Node.OwnRooms.{without}
use chirp.Node.OwnRooms.Mail.{Leaves}
use chirp.Node.RoomPosts.{
  Timing, own_post, flush_room_msgs, flush_pending, flush_room_member, queue_members, flush_members,
  may_post, spread, post, send_room_message, toggled_for, send_room_reaction, new_room,
  create_own_room,
}

module _ ⦃bolt : Bolt⦄ where
  flush_room_msgs-Apart :
      (t : Timing) (writes : Text → Bool) (member room : Text) (l : List RoomMessage) (s : Store)
      → Apart (flush_room_msgs t writes member room l s).1.db s.db
  unfolding flush_room_msgs
  flush_room_msgs-Apart t writes member room [] s = ((refl, refl, refl, refl), refl)
  flush_room_msgs-Apart t writes member room (m ∷ l) s =
      let u = room_record_attempt m.id t.now s in
      ground (
        arith,
        room_record_attempt-Apart m.id t.now s,
        flush_room_msgs-Apart t writes member room l s,
        flush_room_msgs-Apart t writes member room l u,
      )

  module _ ⦃casing : Casing⦄ ⦃a : Aead⦄ where
    pub flush_room_member-Apart :
        (t : Timing) (reaches writes : Text → Bool) (member room : Text) (s : Store)
        → Apart (flush_room_member t reaches writes member room s).1.db s.db
    unfolding flush_room_member flush_pending
    flush_room_member-Apart t reaches writes member room s =
        elim (Result-cases (room_pending room member s)) [
          | inr (x, e) ↦ ground arith
          | inl (l, e) ↦ ground (arith, flush_room_msgs-Apart t writes member room l s)
        ]

    queue_members-Apart :
        (room id : Text) (l : List Text) (s : Store) → Apart (queue_members room id l s).db s.db
    unfolding queue_members
    queue_members-Apart room id [] s = ((refl, refl, refl, refl), refl)
    queue_members-Apart room id (m ∷ l) s = ground (
      arith,
      queue_members-Apart room id l (add_room_member_to_outbox room m id s),
      add_room_member_to_outbox-Apart room m id s,
    )

    flush_members-Apart :
        (t : Timing) (reaches writes : Text → Bool) (room : Text) (l : List Text) (s : Store)
        → Apart (flush_members t reaches writes room l s).1.db s.db
    unfolding flush_members
    flush_members-Apart t reaches writes room [] s = ((refl, refl, refl, refl), refl)
    flush_members-Apart t reaches writes room (m ∷ l) s =
        let u = (flush_room_member t reaches writes m room s).1 in
        ground (
          arith,
          flush_members-Apart t reaches writes room l u,
          flush_room_member-Apart t reaches writes m room s,
        )

    spread-Apart :
        (t : Timing) (reaches writes : Text → Bool) (room id : Text) (members : List Text)
        (r : Res (Option RoomMessage × Bool)) (s : Store)
        → Apart (spread t reaches writes room id members r s).1.db s.db
    unfolding spread
    spread-Apart t reaches writes room id members (err e) s = ((refl, refl, refl, refl), refl)
    spread-Apart t reaches writes room id members (ok (m, true)) s =
        ((refl, refl, refl, refl), refl)
    spread-Apart t reaches writes room id members (ok (m, false)) s = ground (
      arith,
      flush_members-Apart t reaches writes room members (queue_members room id members s),
      queue_members-Apart room id members s,
    )

    next_sender_seq-Apart : (room me : Text) (db : Db) → Apart (next_sender_seq room me db).1 db
    unfolding next_sender_seq
    next_sender_seq-Apart room me db = ground arith

    post-Apart :
        (t : Timing) (reaches writes : Text → Bool) (nonce id : Text) (now : ℤ)
        (me room body : Text) (r : Room) (s : Store)
        → Apart (post t reaches writes nonce id now me room body r s).1.db s.db
    unfolding post
    post-Apart t reaches writes nonce id now me room body r s =
        let n = next_sender_seq room me s.db in
        let p = add_room_message nonce (own_post id room me body now n.0) (record s { db = n.1 }) in
        ground (
          arith,
          next_sender_seq-Apart room me s.db,
          add_room_message-Apart nonce (own_post id room me body now n.0) (record s { db = n.1 }),
          spread-Apart t reaches writes room id (without me r.members) p.0 p.1,
        )

    pub send_room_message-Apart :
        (t : Timing) (reaches writes : Text → Bool) (nonce id : Text) (now : ℤ)
        (me room body : Text) (s : Store)
        → Apart (send_room_message t reaches writes nonce id now me room body s).1.db s.db
    unfolding send_room_message
    send_room_message-Apart t reaches writes nonce id now me room body s =
        elim (Result-cases (may_post me room s)) [
          | inr (x, e) ↦ ground arith
          | inl (r, e) ↦ ground (arith, post-Apart t reaches writes nonce id now me room body r s)
        ]

    pub send_room_reaction-Apart :
        (reaches : Text → Bool) (me room id emoji : Text) (s : Store)
        → Apart (send_room_reaction reaches me room id emoji s).1.db s.db
    unfolding send_room_reaction toggled_for
    send_room_reaction-Apart reaches me room id emoji s = elim (Result-cases (may_post me room s)) [
      | inr (x, e) ↦ ground arith
      | inl (r, e) ↦ ground (arith, toggle_room_reaction-Apart room id me emoji s)
    ]

    pub create_own_room-Apart :
        (reaches : Text → Bool) (nonce id : Text) (now : ℤ) (me name : Text) (names : List Text)
        (s : Store)
        → Leaves (create_own_room reaches nonce id now me name names s) s
    unfolding create_own_room
    create_own_room-Apart reaches nonce id now me name names s =
        let r = new_room id me name now (dedupe_members (me ∷ names)) in
        elim (Result-cases (create_room nonce r s)) [
          | inr (x, e) ↦ ground arith
          | inl (t, e) ↦ ground (arith, create_room-Apart nonce r s t e)
        ]
