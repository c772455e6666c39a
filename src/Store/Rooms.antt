-- ===== src/Store/Rooms.antt =====
-- Rooms and their messages: CreateRoom, GetRoom, UpdateRoom, DeleteRoom, AddRoomMessage,
-- MarkRoomDelivered, ToggleRoomReaction and NextRoomSenderSeq of internal/store/store.go. A prefix scan visits each key once.
pub mod Removal
pub mod Delivery
pub mod Reactions
pub mod Outbox
pub mod Mail
use chirp.Prelude.{
  ℕ, suc, ◌+◌, ◌%◌, Bool, true, false, ◌&&◌, ◌||◌, not, List, [], ◌∷◌, ◌++◌, Text, codes, text_eq,
  Option, none, some, Result, ok, err, ◌>>=◌, ◌>>◌, guard, ltb, leb, length, take, if◌then◌else◌,
}
use chirp.Crypto.Aead.{Aead}
use chirp.Store.Bolt.{Bolt}
use chirp.Store.Casing.{Casing}
use chirp.Store.Rows.{
  Room, RoomState, joined, pending, unset, RoomMessage, RoomReaction, Status, delivered, Db, Store,
  Keys,
}
use chirp.Store.Errors.{StoreError, not_found, too_many_members, too_many_reactions, Res}
use chirp.Store.Seals.{encrypt_string, decrypt_string}
use chirp.Store.Messages.{put_uint64, is_delivered}

abbrev pub max_room_members : ℕ
max_room_members = 32

abbrev pub max_room_reactions : ℕ
max_room_reactions = 128

or_not_found {ℓ} : {A : Type ℓ} → Option A → Res A
or_not_found none = err not_found
or_not_found (some a) = ok a

abbrev pub is_pending : Room → Bool
is_pending r = elim r.state [ pending ↦ true | _ ↦ false ]

-- Rows written before rooms had a state are joined.
abbrev pub known_state : RoomState → RoomState
known_state unset = joined
known_state state = state

-- bytes.HasPrefix
abbrev pub has_prefix : Text → Text → Bool
has_prefix s p = text_eq (take (length p) s) p

module _ ⦃casing : Casing⦄ where
  unfoldable pub room_msg_key : Text → ℕ → Text
  room_msg_key room seq = casing.to_lower room ++ 0 ∷ put_uint64 seq

  -- 58 is a colon.
  unfoldable pub member_prefix : Text → Text → Text
  member_prefix room member = casing.to_lower room ++ 58 ∷ casing.to_lower member ++ 58 ∷ []

  unfoldable pub room_outbox_key : Text → Text → Text → Text
  room_outbox_key room member id =
      casing.to_lower room ++ 58 ∷ casing.to_lower member ++ 58 ∷ casing.to_lower id

  unfoldable pub room_seq_key : Text → Text → Text
  room_seq_key room sender = casing.to_lower room ++ 0 ∷ casing.to_lower sender

  -- The first reaction that is the sender's emoji.
  unfoldable pub has_reaction : Text → Text → List RoomReaction → Bool
  has_reaction sender emoji [] = false
  has_reaction sender emoji (r ∷ l) =
      casing.equal_fold r.sender sender && text_eq r.emoji emoji || has_reaction sender emoji l

  unfoldable pub drop_reaction : Text → Text → List RoomReaction → List RoomReaction
  drop_reaction sender emoji [] = []
  drop_reaction sender emoji (r ∷ l) =
      let rest = drop_reaction sender emoji l in
      if casing.equal_fold r.sender sender && text_eq r.emoji emoji then l else r ∷ rest

  unfoldable pub toggled : Text → Text → List RoomReaction → Res (List RoomReaction)
  toggled sender emoji l =
      if has_reaction sender emoji l
      then ok (drop_reaction sender emoji l)
      else if leb max_room_reactions (length l)
      then err too_many_reactions
      else ok (l ++ record { sender = sender; emoji = emoji } ∷ [])

module _ ⦃bolt : Bolt⦄ where
  unfoldable pub put_room : Room → Store → Store
  put_room r s = record s { db = record (s.db) { rooms = bolt.put s.db.rooms r.id r } }

  unfoldable pub load_room_msg : Db → Text → Res (RoomMessage × Text)
  unfolding or_not_found
  load_room_msg db id = do
    k ← or_not_found (bolt.get db.room_idx id)
    m ← or_not_found (bolt.get db.room_msgs k)
    ok (m, k)

  -- The keys of a bucket with a prefix, and their removal.
  remove_rows : Text → List (Text × RoomMessage) → Db → Db
  remove_rows prefix [] db = db
  remove_rows prefix ((k, m) ∷ l) db = remove_rows prefix l (
      if has_prefix k prefix
      then record db {
        room_msgs = bolt.delete db.room_msgs k;
        room_idx = bolt.delete db.room_idx m.id;
      }
      else db)

  remove_entries : Text → List (Text × Text) → Db → Db
  remove_entries prefix [] db = db
  remove_entries prefix ((k, id) ∷ l) db =
      remove_entries prefix l (
        if has_prefix k prefix
        then record db { room_outbox = bolt.delete db.room_outbox k }
        else db)

  unfoldable pub any_prefix : Text → List (Text × Text) → Bool
  any_prefix prefix [] = false
  any_prefix prefix ((k, id) ∷ l) = has_prefix k prefix || any_prefix prefix l

  module _ ⦃casing : Casing⦄ where
    unfoldable pub delete_room : Text → Store → Store
    unfolding remove_rows remove_entries
    delete_room id s =
        let rows = remove_rows (casing.to_lower id ++ 0 ∷ []) (bolt.pairs s.db.room_msgs) s.db in
        let db =
          remove_entries (casing.to_lower id ++ 58 ∷ []) (bolt.pairs s.db.room_outbox) rows in
        record s { db = record db { rooms = bolt.delete db.rooms id } }

    -- Whether some member but the sender still has an entry for this room.
    unfoldable pub some_waits : Text → Text → List Text → List (Text × Text) → Bool
    some_waits room sender [] out = false
    some_waits room sender (m ∷ l) out =
        not (text_eq m sender) && any_prefix (member_prefix room m) out
        || some_waits room sender l out

    settle : Text → Text → RoomMessage → Room → Db → (RoomMessage × Bool) × Db
    settle room k m r db =
        let n : RoomMessage = record m { status = delivered } in
        if some_waits room m.sender r.members (bolt.pairs db.room_outbox)
        then ((m, false), db)
        else ((n, true), record db { room_msgs = bolt.put db.room_msgs k n })

    -- The database part of MarkRoomDelivered.
    unfoldable pub deliver_room_row : Text → Text → Text → Db → Res ((RoomMessage × Bool) × Db)
    unfolding load_room_msg or_not_found settle
    deliver_room_row room member id db = do
      (m, k) ← load_room_msg db id
      let out : Db = record db {
        room_outbox = bolt.delete db.room_outbox (room_outbox_key room member id);
      }
      r ←
          if is_delivered m.status
          then ok none
          else (do r ← or_not_found (bolt.get db.rooms room); ok (some r))
      ok (elim r [ none ↦ ((m, false), db) | some q ↦ settle room k m q out ])

    -- The database part of ToggleRoomReaction.
    unfoldable toggle_reaction : Text → Text → Text → Text → Db → Res (RoomMessage × Db)
    unfolding load_room_msg
    toggle_reaction room id sender emoji db = do
      (m, k) ← load_room_msg db id
      guard (casing.equal_fold m.room room) not_found
      l ← toggled sender emoji m.reactions
      let n : RoomMessage = record m { reactions = l }
      ok (n, record db { room_msgs = bolt.put db.room_msgs k n })

    -- A missing counter is 0; the number wraps at 2 ^ 64.
    unfoldable pub next_sender_seq : Text → Text → Db → ℕ × Db
    next_sender_seq room sender db =
        let old : ℕ = elim (bolt.get db.room_seq (room_seq_key room sender)) [
          | none ↦ 0
          | some n ↦ n
        ] in
        let next = (old + 1) % 18446744073709551616 in
        (next, record db { room_seq = bolt.put db.room_seq (room_seq_key room sender) next })

    unfoldable pub add_room_row : RoomMessage → Option Text → Db → (RoomMessage × Bool) × Db
    add_room_row m (some k) db = ((m, true), db)
    add_room_row m none db =
        let seq = suc db.room_msgs_seq in
        let n : RoomMessage = record m { seq = seq } in
        let k = room_msg_key m.room seq in
        (
          (n, false),
          record db {
            room_msgs_seq = seq;
            room_msgs = bolt.put db.room_msgs k n;
            room_idx = bolt.put db.room_idx m.id k;
          },
        )

  module _ ⦃a : Aead⦄ where
    abbrev encrypt_room : Text → Keys → Room → Res Room
    encrypt_room nonce keys r = do
      name ← encrypt_string nonce keys r.name
      ok (record r { name = name })

    unfoldable pub decrypt_room : Keys → Room → Res Room
    decrypt_room keys r = do
      name ← decrypt_string keys r.name
      ok (record r { name = name; state = known_state r.state })

    unfoldable pub get_room : Text → Store → Res Room
    unfolding or_not_found
    get_room id s = do r ← or_not_found (bolt.get s.db.rooms id); decrypt_room s.keys r

    unfoldable pub update_room : Text → Room → Store → Res Store
    update_room nonce r s = do enc ← encrypt_room nonce s.keys r; ok (put_room enc s)

    unfoldable pub create_room : Text → Room → Store → Res Store
    create_room nonce r s = do
      guard (leb (length r.members) max_room_members) too_many_members
      enc ← encrypt_room nonce s.keys r
      ok (put_room enc s)

    module _ ⦃casing : Casing⦄ where
      unfoldable pub stored_room_msg : Keys → RoomMessage × Bool → Res (Option RoomMessage × Bool)
      stored_room_msg keys (m, true) = ok (none, true)
      stored_room_msg keys (m, false) = do
        body ← decrypt_string keys m.body
        ok (some (record m { body = body }), false)

      unfoldable pub add_room_message :
          Text → RoomMessage → Store → Res (Option RoomMessage × Bool) × Store
      unfolding stored_room_msg
      add_room_message nonce m s = elim (encrypt_string nonce s.keys m.body) [
        | err e ↦ (err e, s)
        | ok body ↦
            let n : RoomMessage = record m { body = body } in
            let (r, db) = add_room_row n (bolt.get s.db.room_idx m.id) s.db in
            (stored_room_msg s.keys r, record s { db = db })
      ]

      -- The transaction stands even where the body cannot be decrypted afterwards.
      unfoldable pub mark_room_delivered :
          Text → Text → Text → Store → Res (RoomMessage × Bool) × Store
      mark_room_delivered room member id s = elim (deliver_room_row room member id s.db) [
        | err e ↦ (err e, s)
        | ok ((m, changed), db) ↦ (
          do body ← decrypt_string s.keys m.body; ok (record m { body = body }, changed),
          record s { db = db },
        )
      ]
