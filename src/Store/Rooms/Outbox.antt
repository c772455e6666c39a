-- ===== src/Store/Rooms/Outbox.antt =====
-- The outbox of rooms: RoomPending, RoomRecordAttempt, AddRoomMemberToOutbox and sortByRoomSeq of
-- internal/store/store.go.
use chirp.Prelude.{ℕ, suc, List, [], ◌∷◌, Text, ok, err, ◌>>=◌, ltb, if◌then◌else◌}
use chirp.Crypto.Aead.{Aead}
use chirp.Store.Bolt.{Bolt}
use chirp.Store.Casing.{Casing}
use chirp.Store.Rows.{RoomMessage, Db, Store, Keys}
use chirp.Store.Errors.{Res}
use chirp.Store.Rooms.{has_prefix, member_prefix, room_outbox_key, load_room_msg}
use chirp.Store.Rooms.Reactions.{decrypt_room_message}

insert_by_room_seq : RoomMessage → List RoomMessage → List RoomMessage
insert_by_room_seq m [] = m ∷ []
insert_by_room_seq m (n ∷ l) =
    let rest = insert_by_room_seq m l in if ltb m.seq n.seq then m ∷ n ∷ l else n ∷ rest

sort_room_from : List RoomMessage → List RoomMessage → List RoomMessage
sort_room_from done [] = done
sort_room_from done (m ∷ l) = sort_room_from (insert_by_room_seq m done) l

sort_by_room_seq : List RoomMessage → List RoomMessage
unfolding sort_room_from insert_by_room_seq
sort_by_room_seq l = sort_room_from [] l

module _ ⦃bolt : Bolt⦄ where
  unfoldable pub room_record_attempt : Text → ℕ → Store → Store
  room_record_attempt id now s = elim (load_room_msg s.db id) [
    | err e ↦ s
    | ok (m, k) ↦
        let n : RoomMessage = record m { attempts = suc m.attempts; last_try = now } in
        record s { db = record (s.db) { room_msgs = bolt.put s.db.room_msgs k n } }
  ]

  module _ ⦃casing : Casing⦄ where
    unfoldable pub add_room_member_to_outbox : Text → Text → Text → Store → Store
    add_room_member_to_outbox room member id s = record s {
      db = record (s.db) {
        room_outbox = bolt.put s.db.room_outbox (room_outbox_key room member id) id;
      };
    }

    module _ ⦃a : Aead⦄ where
      -- Entries whose message is gone are passed over.
      pending_of : Keys → Db → Text → List (Text × Text) → Res (List RoomMessage)
      unfolding decrypt_room_message
      pending_of keys db prefix [] = ok []
      pending_of keys db prefix ((k, id) ∷ l) =
          let rest = pending_of keys db prefix l in
          if has_prefix k prefix
          then elim (load_room_msg db id) [
            | err e ↦ rest
            | ok (m, j) ↦ do n ← decrypt_room_message keys m; out ← rest; ok (n ∷ out)
          ]
          else rest

      pub room_pending : Text → Text → Store → Res (List RoomMessage)
      unfolding pending_of sort_by_room_seq
      room_pending room member s = do
        out ← pending_of s.keys s.db (member_prefix room member) (bolt.pairs s.db.room_outbox)
        ok (sort_by_room_seq out)
