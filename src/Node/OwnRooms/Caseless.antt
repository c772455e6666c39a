-- ===== src/Node/OwnRooms/Caseless.antt =====
-- A member that is removed under another casing of its name.
use chirp.Prelude.{
  ◌<◌, ◌≡◌, ◌≢◌, refl, Bool, true, List, [], ◌∷◌, ◌++◌, Text, text_eq→eq, text_eq_refl, ok, arith,
  All,
}
use chirp.Prelude.Int.{ℤ}
use chirp.Crypto.Aead.{Aead}
use chirp.Proto.Envelope.{remove}
use chirp.Store.Bolt.{Bolt}
use chirp.Store.Casing.{Casing}
use chirp.Store.Rows.{Room, Store}
use chirp.Store.Rooms.{get_room, update_room, known_state}
use chirp.Store.Seals.Laws.{IsNonce, Unlocked}
use chirp.Node.Rooms.Authority.{get_room-update_room}
use chirp.Node.Members.{is_member}
use chirp.Node.OwnRooms.{without, own_room, room_event, send_event, send_all, remove_room_member}

without-absent : (name : Text) (l : List Text) → All (λ m. m ≢ name) l → without name l ≡ l
unfolding without
without-absent name [] h = refl
without-absent name (m ∷ l) h = ground (arith, without-absent name l h.1, text_eq→eq m name)

module _ ⦃bolt : Bolt⦄ ⦃casing : Casing⦄ ⦃a : Aead⦄ where
  -- When the creator removes a member under a casing of the name that the list does not have,
  -- RemoveRoomMember succeeds and announces the removal to the member and the others, and the room
  -- that is read back still has all its members, if the row can be written.
  remove_room_member-casing :
      (reaches : Text → Bool) (nonce : Text) (now : ℤ) (me id name : Text) (r : Room) (s t : Store)
      → IsNonce nonce
      → Unlocked s.keys
      → All (λ b. b < 256) r.name
      → get_room id s ≡ ok r
      → r.id ≡ id
      → r.created_by ≡ me
      → name ≢ me
      → is_member r.members name ≡ true
      → All (λ m. m ≢ name) r.members
      → update_room nonce r s ≡ ok t
      → (remove_room_member reaches nonce now me id name s
          ≡ ok (
            send_event reaches name (room_event id now remove name [] [])
                ++ send_all reaches
                    (without name (without me r.members))
                    (room_event id now remove name [] []),
            t,
          ))
        × (get_room id t ≡ ok (record r { state = known_state r.state }))
  unfolding remove_room_member own_room
  remove_room_member-casing reaches nonce now me id name r s t nn k b g i o n m h u = (
    ground (arith, without-absent name r.members h, text_eq→eq name me, text_eq_refl r.created_by),
    rw (← i) (get_room-update_room nonce r s t nn k b u),
  )
