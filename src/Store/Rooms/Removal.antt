-- ===== src/Store/Rooms/Removal.antt =====
-- DeleteRoom and the other rooms.
use chirp.Prelude.{
  ◌≡◌, refl, ap, ◌∙◌, List, [], ◌∷◌, Text, text_eq, Bool, true, false, ◌++◌, none, if◌then◌else◌,
}
use chirp.Store.Bolt.{Bolt}
use chirp.Store.Casing.{Casing}
use chirp.Store.Rows.{RoomMessage, Room, Db, Store}
use chirp.Store.Rooms.{remove_rows, remove_entries, delete_room, has_prefix}

module _ ⦃bolt : Bolt⦄ where
  rooms-if : (b : Bool) (d db : Db) → d.rooms ≡ db.rooms → (if b then d else db).rooms ≡ db.rooms
  rooms-if true d db h = h
  rooms-if false d db h = refl

  rooms-remove_rows :
      (prefix : Text) (l : List (Text × RoomMessage)) (db : Db)
      → (remove_rows prefix l db).rooms ≡ db.rooms
  unfolding remove_rows
  rooms-remove_rows prefix [] db = refl
  rooms-remove_rows prefix ((k, m) ∷ l) db =
      rooms-remove_rows prefix l _ ∙ rooms-if (has_prefix k prefix) _ db refl

  rooms-remove_entries :
      (prefix : Text) (l : List (Text × Text)) (db : Db)
      → (remove_entries prefix l db).rooms ≡ db.rooms
  unfolding remove_entries
  rooms-remove_entries prefix [] db = refl
  rooms-remove_entries prefix ((k, id) ∷ l) db =
      rooms-remove_entries prefix l _ ∙ rooms-if (has_prefix k prefix) _ db refl

  pub rooms-delete_room :
      ⦃casing : Casing⦄ (id j : Text) (s : Store)
      → bolt.get (delete_room id s).db.rooms j
        ≡ (if text_eq id j then none else bolt.get s.db.rooms j)
  unfolding delete_room
  rooms-delete_room ⦃casing = casing⦄ id j s =
      let rows = remove_rows (casing.to_lower id ++ 0 ∷ []) (bolt.pairs s.db.room_msgs) s.db in
      let same =
        rooms-remove_entries (casing.to_lower id ++ 58 ∷ []) (bolt.pairs s.db.room_outbox) rows
        ∙ rooms-remove_rows (casing.to_lower id ++ 0 ∷ []) (bolt.pairs s.db.room_msgs) s.db in
      ap (λ (b : bolt.Bucket Room). bolt.get (bolt.delete b id) j) same
      ∙ bolt.get-delete s.db.rooms id j
