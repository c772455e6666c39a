-- ===== src/Store/Rooms/Mail.antt =====
-- The operations of internal/store/store.go on rooms leave the messages to peers as they are.
use chirp.Prelude.{
  ℕ, ◌≡◌, refl, List, [], ◌∷◌, ◌++◌, Text, ok, arith, Result-cases, Bool-cases, inl, inr,
}
use chirp.Crypto.Aead.{Aead}
use chirp.Store.Bolt.{Bolt}
use chirp.Store.Casing.{Casing}
use chirp.Store.Rows.{Room, RoomMessage, Db, Store}
use chirp.Store.Seals.{encrypt_string}
use chirp.Store.Messages.Mail.{Apart}
use chirp.Store.Rooms.Reactions.{toggle_room_reaction}
use chirp.Store.Rooms.Outbox.{room_record_attempt, add_room_member_to_outbox}
use chirp.Store.Rooms.{
  has_prefix, put_room, remove_rows, remove_entries, delete_room, deliver_room_row, toggle_reaction,
  add_room_row, update_room, create_room, add_room_message, mark_room_delivered, load_room_msg,
  settle, or_not_found,
}

module _ ⦃bolt : Bolt⦄ where
  remove_rows-Apart :
      (prefix : Text) (l : List (Text × RoomMessage)) (db : Db) → Apart (remove_rows prefix l db) db
  unfolding remove_rows
  remove_rows-Apart prefix [] db = ((refl, refl, refl, refl), refl)
  remove_rows-Apart prefix ((k, m) ∷ l) db = elim (Bool-cases (has_prefix k prefix)) [
    | inr n ↦ rw (n, remove_rows) (remove_rows-Apart prefix l db)
    | inl y ↦
        rw (y, remove_rows)
          (remove_rows-Apart prefix l (record db {
            room_msgs = bolt.delete db.room_msgs k;
            room_idx = bolt.delete db.room_idx m.id;
          }))
  ]

  remove_entries-Apart :
      (prefix : Text) (l : List (Text × Text)) (db : Db) → Apart (remove_entries prefix l db) db
  unfolding remove_entries
  remove_entries-Apart prefix [] db = ((refl, refl, refl, refl), refl)
  remove_entries-Apart prefix ((k, id) ∷ l) db = elim (Bool-cases (has_prefix k prefix)) [
    | inr n ↦ rw (n, remove_entries) (remove_entries-Apart prefix l db)
    | inl y ↦
        rw (y, remove_entries)
          (remove_entries-Apart prefix l (record db { room_outbox = bolt.delete db.room_outbox k }))
  ]

  pub room_record_attempt-Apart :
      (id : Text) (now : ℕ) (s : Store) → Apart (room_record_attempt id now s).db s.db
  unfolding room_record_attempt load_room_msg or_not_found
  room_record_attempt-Apart id now s = ground arith

  pub add_room_member_to_outbox-Apart :
      ⦃casing : Casing⦄ (room member id : Text) (s : Store)
      → Apart (add_room_member_to_outbox room member id s).db s.db
  unfolding add_room_member_to_outbox
  add_room_member_to_outbox-Apart room member id s = ground arith

  module _ ⦃a : Aead⦄ where
    pub update_room-Apart :
        (nonce : Text) (r : Room) (s t : Store) → update_room nonce r s ≡ ok t → Apart t.db s.db
    unfolding update_room put_room
    update_room-Apart nonce r s t h = elim (Result-cases (encrypt_string nonce s.keys r.name)) [
      | inr (x, e) ↦ absurd (ground arith)
      | inl (name, e) ↦ ground arith
    ]

    pub create_room-Apart :
        (nonce : Text) (r : Room) (s t : Store) → create_room nonce r s ≡ ok t → Apart t.db s.db
    unfolding create_room put_room
    create_room-Apart nonce r s t h = elim (Result-cases (encrypt_string nonce s.keys r.name)) [
      | inr (x, e) ↦ absurd (ground arith)
      | inl (name, e) ↦ ground arith
    ]

    module _ ⦃casing : Casing⦄ where
      pub delete_room-Apart : (id : Text) (s : Store) → Apart (delete_room id s).db s.db
      unfolding delete_room
      delete_room-Apart id s =
          let rows = remove_rows (casing.to_lower id ++ 0 ∷ []) (bolt.pairs s.db.room_msgs) s.db in
          ground (
            arith,
            remove_rows-Apart (casing.to_lower id ++ 0 ∷ []) (bolt.pairs s.db.room_msgs) s.db,
            remove_entries-Apart (casing.to_lower id ++ 58 ∷ []) (bolt.pairs s.db.room_outbox) rows,
          )

      pub add_room_message-Apart :
          (nonce : Text) (m : RoomMessage) (s : Store)
          → Apart (add_room_message nonce m s).1.db s.db
      unfolding add_room_message add_room_row
      add_room_message-Apart nonce m s = ground arith

      pub mark_room_delivered-Apart :
          (room member id : Text) (s : Store)
          → Apart (mark_room_delivered room member id s).1.db s.db
      unfolding mark_room_delivered deliver_room_row load_room_msg settle or_not_found
      mark_room_delivered-Apart room member id s = ground arith

      pub toggle_room_reaction-Apart :
          (room id sender emoji : Text) (s : Store)
          → Apart (toggle_room_reaction room id sender emoji s).1.db s.db
      unfolding toggle_room_reaction toggle_reaction load_room_msg or_not_found
      toggle_room_reaction-Apart room id sender emoji s = ground arith
