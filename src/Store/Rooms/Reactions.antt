-- ===== src/Store/Rooms/Reactions.antt =====
-- ToggleRoomReaction of internal/store/store.go with the body that it decrypts for the caller.
use chirp.Prelude.{Bool, true, Text, ok, err, ◌>>=◌}
use chirp.Crypto.Aead.{Aead}
use chirp.Store.Bolt.{Bolt}
use chirp.Store.Casing.{Casing}
use chirp.Store.Rows.{RoomMessage, Store, Keys}
use chirp.Store.Errors.{Res}
use chirp.Store.Seals.{decrypt_string}
use chirp.Store.Rooms.{toggle_reaction}

module _ ⦃bolt : Bolt⦄ ⦃casing : Casing⦄ ⦃a : Aead⦄ where
  unfoldable pub decrypt_room_message : Keys → RoomMessage → Res RoomMessage
  decrypt_room_message keys m = do body ← decrypt_string keys m.body; ok (record m { body = body })

  -- The transaction stands even where the body cannot be decrypted afterwards.
  unfoldable pub toggle_room_reaction :
      Text → Text → Text → Text → Store → Res (RoomMessage × Bool) × Store
  unfolding decrypt_room_message
  toggle_room_reaction room id sender emoji s = elim (toggle_reaction room id sender emoji s.db) [
    | err e ↦ (err e, s)
    | ok (m, db) ↦ (do n ← decrypt_room_message s.keys m; ok (n, true), record s { db = db })
  ]
