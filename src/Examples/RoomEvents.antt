-- ===== src/Examples/RoomEvents.antt =====
-- Ann's room with bo in it: bo's device handles what others send.
use chirp.Prelude.{
  ◌≡◌, ◌≤◌, ◌&&◌, leb, if◌then◌else◌, refl, true, false, [], ◌∷◌, ◌++◌, Text, codes, text_eq,
  text_ltb, none, some, ok, length, arith,
}
use chirp.Proto.Envelope.{Envelope, MsgType, EventKind, leave, rename, create}
use chirp.Bytes.Base64
use chirp.Crypto.Sealed
use chirp.Store.Bolt.{find}
use chirp.Store.Rows.{Room, joined, pending, Store}
use chirp.Store.Errors.{base64_decode}
use chirp.Store.Seals.{encrypt_string, decrypt_string}
use chirp.Store.Rooms.{known_state, get_room, decrypt_room, update_room, put_room}
use chirp.Node.Members.{
  is_member, remove_peer, dedupe_members, dedupe_from, sort_strings, sort_onto, insert_string,
}
use chirp.Node.Transfer.{bare}
use chirp.Node.Rooms.{handle_room_event, announced}
use chirp.Node.Rooms.Authority.{handle_room_event-other, departed_creator-renames}
use chirp.Node.Rooms.Capacity.{Fits, handle_room_event-Fits}
use chirp.Node.Rooms.Admission.{unreadable-seized}
use chirp.Examples.Buckets.{rows_bolt}
use chirp.Examples.Setup.{ascii_casing, tag_aead}
use chirp.Examples.Data.{nonce, nonce-IsNonce, key, empty_db, bo, ann, club, club_store}

abbrev cy : Text
cy = codes "cy"

abbrev event : EventKind → Envelope
event k = record (bare MsgType.roomevent) {
  room = codes "r";
  room_event = k;
  room_name = codes "mine";
  room_actor = ann;
  room_members = cy ∷ bo ∷ [];
}

club_read : get_room (codes "r") club_store ≡ ok club
unfolding get_room decrypt_room decrypt_string find text_eq
club_read = refl

-- Cy names ann as the actor, in vain.
handle_room_event-other_example :
    handle_room_event nonce bo cy (event rename) club_store ≡ club_store
handle_room_event-other_example =
    handle_room_event-other nonce bo cy (event rename) club club_store club_read (ground arith)
      (λ e. cc)

-- Ann leaves, and renames the room.
abbrev left_club : Room
left_club = record club { members = bo ∷ [] }

abbrev left_store : Store
left_store = put_room left_club club_store

left_written :
    update_room nonce (record club { members = remove_peer club.members ann }) club_store
    ≡ ok left_store
unfolding update_room encrypt_string remove_peer put_room text_eq
left_written = refl

renamed_written :
    update_room nonce
      (record club {
        members = remove_peer club.members ann;
        name = codes "mine";
        state = known_state joined;
      })
      left_store
    ≡ ok (put_room (record left_club { name = codes "mine" }) left_store)
unfolding update_room encrypt_string remove_peer put_room text_eq
renamed_written = refl

departed_creator-renames_example :
    (handle_room_event nonce bo ann (event leave) club_store ≡ left_store)
    × (is_member (remove_peer club.members ann) ann ≡ false)
    × (handle_room_event nonce bo ann (event rename) left_store
        ≡ put_room (record left_club { name = codes "mine" }) left_store)
    × (get_room (codes "r") (put_room (record left_club { name = codes "mine" }) left_store)
        ≡ ok (record club {
          members = remove_peer club.members ann;
          name = codes "mine";
          state = known_state (known_state joined);
        }))
departed_creator-renames_example =
    departed_creator-renames nonce bo ann (event leave) (event rename) club club_store left_store
      (put_room (record left_club { name = codes "mine" }) left_store) nonce-IsNonce (λ e. refl)
      (ground arith) (ground arith) club_read refl refl (ground arith)
      (unfold is_member in unfold text_eq in refl) refl refl refl left_written renamed_written

abbrev sealed_mine : Text
sealed_mine = Base64.encode (Sealed.magic ++ 1 ∷ nonce ++ tag_aead.seal key nonce (codes "mine"))

-- The name of the room was written before the key was set.
abbrev unread_store : Store
unread_store = record {
  db = record empty_db { rooms = ((codes "r", record club { name = codes "clubs" }) ∷ [], tt) };
  keys = record { enc_key = some key; id_key = none };
}

unreadable-seized_example :
    (rows_bolt.get (handle_room_event nonce bo cy (event create) unread_store).db.rooms (codes "r")
      ≡ (if is_member (announced bo cy (event create)) bo
            && leb (length (announced bo cy (event create))) 32
          then some (record {
            id = codes "r";
            name = sealed_mine;
            members = announced bo cy (event create);
            created_by = cy;
            created_at = (event create).ts;
            state = pending;
          })
          else some (record club { name = codes "clubs" })))
    × ((handle_room_event nonce bo cy (event create) unread_store).db.room_msgs
        ≡ unread_store.db.room_msgs)
unreadable-seized_example =
    unreadable-seized nonce bo cy sealed_mine (event create) (record club { name = codes "clubs" })
      base64_decode unread_store refl (unfold find in unfold text_eq in refl)
      (unfold decrypt_string in unfold Base64.decode in refl)
      (unfold encrypt_string in unfold Sealed.encrypt in refl)

among :
    (is_member (announced bo cy (event create)) bo ≡ true)
    × (length (announced bo cy (event create)) ≤ 32)
unfolding is_member dedupe_members dedupe_from sort_strings sort_onto insert_string text_eq text_ltb
among = (refl, ground arith)

club-Fits : Fits club_store
unfolding Fits find
club-Fits j q h = ground arith

handle_room_event-Fits_example : Fits (handle_room_event nonce bo ann (event create) club_store)
handle_room_event-Fits_example =
    handle_room_event-Fits nonce bo ann (event create) club_store club-Fits
