-- ===== src/Node/RoomPosts/Waiting.antt =====
-- A message posted in a room waits for every other member: SendRoomMessage of internal/node/rooms.go.
use chirp.Prelude.{
  ℕ, ◌≡◌, refl, false, Bool, List, [], ◌∷◌, Text, ◌∙◌, ◌⊎◌, suc, text_eq_refl, Option, none, some,
  ok, err, All, arith, Result-cases, inl, inr,
}
use chirp.Prelude.Int.{ℤ}
use chirp.Crypto.Aead.{Aead}
use chirp.Store.Bolt.{Bolt}
use chirp.Store.Casing.{Casing}
use chirp.Store.Rows.{Room, RoomMessage, Store}
use chirp.Store.Errors.{StoreError}
use chirp.Store.Seals.{encrypt_string, decrypt_string}
use chirp.Store.Rooms.{
  room_outbox_key, next_sender_seq, add_room_message, add_room_row, stored_room_msg,
}
use chirp.Store.Rooms.Outbox.{room_pending, room_record_attempt, add_room_member_to_outbox}
use chirp.Node.OwnRooms.{Sent, without}
use chirp.Node.RoomPosts.{
  Timing, own_post, flush_room_msgs, flush_pending, flush_room_member, queue_members, flush_members,
  may_post, spread, post, send_room_message,
}

module _ ⦃bolt : Bolt⦄ where
  record_attempt-outbox :
      (id : Text) (now : ℕ) (s : Store)
      → (room_record_attempt id now s).db.room_outbox ≡ s.db.room_outbox
  unfolding room_record_attempt
  record_attempt-outbox id now s = ground arith

  flush_room_msgs-outbox :
      (t : Timing) (writes : Text → Bool) (member room : Text) (l : List RoomMessage) (s : Store)
      → (flush_room_msgs t writes member room l s).1.db.room_outbox ≡ s.db.room_outbox
  unfolding flush_room_msgs
  flush_room_msgs-outbox t writes member room [] s = refl
  flush_room_msgs-outbox t writes member room (m ∷ l) s = ground (
    arith,
    record_attempt-outbox m.id t.now s,
    flush_room_msgs-outbox t writes member room l s,
    flush_room_msgs-outbox t writes member room l (room_record_attempt m.id t.now s),
  )

  module _ ⦃casing : Casing⦄ ⦃a : Aead⦄ where
    flush_room_member-outbox :
        (t : Timing) (reaches writes : Text → Bool) (member room : Text) (s : Store)
        → (flush_room_member t reaches writes member room s).1.db.room_outbox ≡ s.db.room_outbox
    unfolding flush_room_member flush_pending
    flush_room_member-outbox t reaches writes member room s =
        elim (Result-cases (room_pending room member s)) [
          | inl (l, e) ↦ ground (arith, flush_room_msgs-outbox t writes member room l s)
          | inr (x, e) ↦ ground arith
        ]

    flush_members-outbox :
        (t : Timing) (reaches writes : Text → Bool) (room : Text) (l : List Text) (s : Store)
        → (flush_members t reaches writes room l s).1.db.room_outbox ≡ s.db.room_outbox
    unfolding flush_members
    flush_members-outbox t reaches writes room [] s = refl
    flush_members-outbox t reaches writes room (m ∷ l) s =
        let u = (flush_room_member t reaches writes m room s).1 in
        flush_members-outbox t reaches writes room l u
        ∙ flush_room_member-outbox t reaches writes m room s

    -- The entry of a message for a member.
    abbrev pub WaitsFor : Text → Text → bolt.Bucket Text → Text → Type 0
    WaitsFor room id outbox m = bolt.get outbox (room_outbox_key room m id) ≡ some id

    queue_members-kept :
        (room id m : Text) (l : List Text) (s : Store)
        → WaitsFor room id s.db.room_outbox m
        → WaitsFor room id (queue_members room id l s).db.room_outbox m
    unfolding queue_members add_room_member_to_outbox
    queue_members-kept room id m [] s h = h
    queue_members-kept room id m (n ∷ l) s h =
        queue_members-kept room id m l (add_room_member_to_outbox room n id s) (
          ground (
            arith,
            bolt.get-put s.db.room_outbox (room_outbox_key room n id) (room_outbox_key room m id)
                id,
          ))

    queue_members-WaitsFor :
        (room id : Text) (l : List Text) (s : Store)
        → All (WaitsFor room id (queue_members room id l s).db.room_outbox) l
    unfolding queue_members add_room_member_to_outbox
    queue_members-WaitsFor room id [] s = tt
    queue_members-WaitsFor room id (m ∷ l) s =
        let t = add_room_member_to_outbox room m id s in
        let key = room_outbox_key room m id in
        (
          queue_members-kept room id m l t
              (ground (arith, bolt.get-put s.db.room_outbox key key id, text_eq_refl key)),
          queue_members-WaitsFor room id l t,
        )

    -- A message with a new id is no duplicate.
    add_room_message-fresh :
        (nonce : Text) (m : RoomMessage) (s : Store)
        → bolt.get s.db.room_idx m.id ≡ none
        → ((x : Option RoomMessage) × ((add_room_message nonce m s).0 ≡ ok (x, false)))
          ⊎ ((e : StoreError) × ((add_room_message nonce m s).0 ≡ err e))
    unfolding add_room_message add_room_row stored_room_msg
    add_room_message-fresh nonce m s f = elim (Result-cases (encrypt_string nonce s.keys m.body)) [
      | inr (e, g) ↦ inr (e, ground arith)
      | inl (body, g) ↦ elim (Result-cases (decrypt_string s.keys body)) [
        | inr (e, d) ↦ inr (e, ground arith)
        | inl (plain, d) ↦
            inl (some (record m { body = plain; seq = suc s.db.room_msgs_seq }), ground arith)
      ]
    ]

    spread-WaitsFor :
        (t : Timing) (reaches writes : Text → Bool) (room id : Text) (l : List Text)
        (x : Option RoomMessage) (s : Store)
        → All
            (WaitsFor room id
              (spread t reaches writes room id l (ok (x, false)) s).1.db.room_outbox)
            l
    unfolding spread
    spread-WaitsFor t reaches writes room id l x s =
        rw (flush_members-outbox t reaches writes room l (queue_members room id l s))
          (queue_members-WaitsFor room id l s)

    -- A message that the user may post in a room and that SendRoomMessage takes waits afterwards in
    -- the outbox for every other member, whether a session reaches the member or not, if its id is
    -- new.
    pub send_room_message-WaitsFor :
        (t : Timing) (reaches writes : Text → Bool) (nonce id : Text) (now : ℤ)
        (me room body : Text) (r : Room) (s u : Store) (out : Sent)
        → may_post me room s ≡ ok r
        → send_room_message t reaches writes nonce id now me room body s ≡ (ok out, u)
        → bolt.get s.db.room_idx id ≡ none
        → All (WaitsFor room id u.db.room_outbox) (without me r.members)
    unfolding send_room_message post next_sender_seq
    send_room_message-WaitsFor t reaches writes nonce id now me room body r s u out p h f =
        let (seq, db) = next_sender_seq room me s.db in
        let m = own_post id room me body now seq in
        elim (add_room_message-fresh nonce m (record s { db = db }) f) [
          | inl (x, e) ↦
              let w = (add_room_message nonce m (record s { db = db })).1 in
              let l = without me r.members in
              let same : (spread t reaches writes room id l (ok (x, false)) w).1 ≡ u =
                ground arith in
              rw same at (spread-WaitsFor t reaches writes room id l x w)
          | inr (x, e) ↦ absurd (unfold spread in ground arith)
        ]
