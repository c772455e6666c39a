-- ===== src/Store/Messages.antt =====
-- Messages and the outbox: msgKey, AddMessage, loadByID, MarkDelivered, RecordAttempt,
-- DeleteFromOutbox, DeleteMessage, DeleteAllMessages, Prune, deleteMessages, Pending, sortBySeq and
-- ForgetPeer of internal/store/store.go. NextSequence counts below 2 ^ 64.
pub mod MsgKeys
pub mod Indexed
pub mod Delivery
pub mod Removal
pub mod History
pub mod Order
pub mod Mail
pub mod Beside
use chirp.Prelude.{
  ℕ, suc, ◌+◌, ◌/◌, ◌%◌, ◌^◌, Bool, true, false, ◌&&◌, ◌||◌, not, List, [], ◌∷◌, ◌++◌, Text,
  text_eq, Option, none, some, Result, ok, err, ◌>>=◌, ◌>>◌, guard, wrap, ltb, if◌then◌else◌,
}
use chirp.Crypto.Aead.{Aead}
use chirp.Store.Bolt.{Bolt}
use chirp.Store.Casing.{Casing}
use chirp.Store.Rows.{
  Message, Dir, dir_in, dir_out, Status, queued, delivered, received, Db, Store, Keys,
}
use chirp.Store.Errors.{StoreError, not_found, Res}
use chirp.Store.Seals.{encrypt_string, decrypt_string}
use chirp.Store.Peers.{peer_key}

-- binary.BigEndian.PutUint64
abbrev pub put_uint64 : ℕ → Text
put_uint64 n =
    (n / 72057594037927936 % 256)
    ∷ (n / 281474976710656 % 256)
    ∷ (n / 1099511627776 % 256)
    ∷ (n / 4294967296 % 256)
    ∷ (n / 16777216 % 256)
    ∷ (n / 65536 % 256)
    ∷ (n / 256 % 256)
    ∷ (n % 256)
    ∷ []

abbrev pub is_out : Dir → Bool
is_out dir_out = true
is_out dir_in = false

abbrev pub is_delivered : Status → Bool
is_delivered delivered = true
is_delivered _ = false

-- m.Dir == DirOut && m.Status != StatusDelivered
abbrev pub undelivered : Message → Bool
undelivered m = is_out m.dir && not (is_delivered m.status)

or_not_found {ℓ} : {A : Type ℓ} → Option A → Res A
or_not_found none = err not_found
or_not_found (some a) = ok a

module _ ⦃bolt : Bolt⦄ where
  -- A row written at its key, and a row removed with its entries.
  unfoldable pub put_msg : Text → Message → Db → Db
  put_msg k m db = record db { msgs = bolt.put db.msgs k m }

  unfoldable pub remove_msg : Text → Text → Db → Db
  remove_msg k id db = record db {
    msgs = bolt.delete db.msgs k;
    idx = bolt.delete db.idx id;
    outbox = bolt.delete db.outbox id;
  }

  unfoldable pub load_by_id : Db → Text → Res (Message × Text)
  unfolding or_not_found
  load_by_id db id = do
    k ← or_not_found (bolt.get db.idx id)
    m ← or_not_found (bolt.get db.msgs k)
    ok (m, k)

  unfoldable pub delivered_db : Text → Text → Message → Db → Db
  delivered_db id k m db = record (put_msg k m db) { outbox = bolt.delete db.outbox id }

  unfoldable pub attempt_db : Text → ℕ → Db → Res (Message × Db)
  attempt_db id now db = do
    (m, k) ← load_by_id db id
    let n : Message = record m { attempts = suc m.attempts; last_try = now }
    ok (n, put_msg k n db)

  unfoldable pub delete_from_outbox : Text → Db → Res Db
  delete_from_outbox id db = do
    (m, k) ← load_by_id db id
    guard (undelivered m) not_found
    ok (remove_msg k id db)

  unfoldable pub delete_message : Text → Db → Res Db
  delete_message id db = do (m, k) ← load_by_id db id; ok (remove_msg k m.id db)

  -- The rows that the predicate names, then their removal one by one.
  unfoldable pub chosen : (Message → Bool) → List (Text × Message) → List (Text × Text)
  chosen pred [] = []
  chosen pred ((k, m) ∷ l) = let rest = chosen pred l in if pred m then (k, m.id) ∷ rest else rest

  unfoldable pub remove_all : List (Text × Text) → Db → Db
  remove_all [] db = db
  remove_all ((k, id) ∷ l) db = remove_all l (remove_msg k id db)

  unfoldable pub delete_messages : (Message → Bool) → Db → Db
  delete_messages pred db = remove_all (chosen pred (bolt.pairs db.msgs)) db

  unfoldable pub delete_all_messages : Db → Db
  delete_all_messages db = delete_messages (λ m. true) db

  abbrev pub prunes : ℕ → Message → Bool
  prunes cutoff m = if undelivered m then false else ltb m.ts cutoff

  unfoldable pub prune : ℕ → Db → Db
  prune cutoff db = delete_messages (prunes cutoff) db

  module _ ⦃casing : Casing⦄ where
    unfoldable pub msg_key : Text → ℕ → Text
    msg_key peer seq = peer_key peer ++ 0 ∷ put_uint64 seq

    unfoldable pub forget_peer : Text → Db → Db
    forget_peer name db =
        delete_messages (λ m. casing.equal_fold m.peer name)
          (record db { peers = bolt.delete db.peers (peer_key name) })

    -- A message whose id is known is a duplicate and changes nothing.
    unfoldable pub add_row : Message → Option Text → Db → (Message × Bool) × Db
    add_row m (some k) db = ((m, true), db)
    add_row m none db =
        let seq = suc db.msgs_seq in
        let n : Message = record m { seq = seq } in
        let k = msg_key m.peer seq in
        (
          (n, false),
          record db {
            msgs_seq = seq;
            msgs = bolt.put db.msgs k n;
            idx = bolt.put db.idx m.id k;
            outbox = if undelivered m then bolt.put db.outbox m.id k else db.outbox;
          },
        )

    -- An acknowledgement counts for an outbound message to the peer that sends it; a second one
    -- changes nothing.
    unfoldable pub deliver_row : Text → Text → Db → Res ((Message × Bool) × Db)
    deliver_row peer id db = do
      (m, k) ← load_by_id db id
      guard (is_out m.dir && casing.equal_fold m.peer peer) not_found
      let n : Message = record m { status = delivered }
      ok (if is_delivered m.status then ((m, false), db) else ((n, true), delivered_db id k n db))

    module _ ⦃a : Aead⦄ where
      unfoldable pub decrypt_message : Keys → Message → Res Message
      decrypt_message keys m = do body ← decrypt_string keys m.body; ok (record m { body = body })

      -- A duplicate leaves `stored` the zero Message, whose body is empty.
      unfoldable pub stored_message : Keys → Message × Bool → Res (Option Message × Bool)
      unfolding decrypt_message
      stored_message keys (m, true) = ok (none, true)
      stored_message keys (m, false) = do n ← decrypt_message keys m; ok (some n, false)

      -- The transaction stands even where the stored body cannot be decrypted afterwards.
      unfoldable pub add_message : Text → Message → Store → Res (Option Message × Bool) × Store
      unfolding stored_message
      add_message nonce m s = elim (encrypt_string nonce s.keys m.body) [
        | err e ↦ (err e, s)
        | ok body ↦
            let n : Message = record m { body = body } in
            let (r, db) = add_row n (bolt.get s.db.idx m.id) s.db in
            (stored_message s.keys r, record s { db = db })
      ]

      unfoldable pub mark_delivered : Text → Text → Store → Res (Message × Bool) × Store
      unfolding decrypt_message
      mark_delivered peer id s = elim (deliver_row peer id s.db) [
        | err e ↦ (err e, s)
        | ok ((m, changed), db) ↦
            (do n ← decrypt_message s.keys m; ok (n, changed), record s { db = db })
      ]

      unfoldable pub record_attempt : Text → ℕ → Store → Res Message × Store
      unfolding decrypt_message
      record_attempt id now s = elim (attempt_db id now s.db) [
        | err e ↦ (err e, s)
        | ok (m, db) ↦ (decrypt_message s.keys m, record s { db = db })
      ]

      unfoldable pub pending_rows :
          Keys → (Text → Option Message) → Text → List (Text × Text) → Res (List Message)
      unfolding decrypt_message
      pending_rows keys row peer [] = ok []
      pending_rows keys row peer ((id, k) ∷ l) =
          let rest = pending_rows keys row peer l in
          elim (row k) [
            | none ↦ rest
            | some m ↦ do
              n ← decrypt_message keys m
              out ← rest
              ok (if text_eq peer [] || casing.equal_fold n.peer peer then n ∷ out else out)
          ]

-- sortBySeq: the messages one after another move down past those with a greater number. What is
-- passed is the end of a part that is sorted, so the place is the same from the front.
unfoldable pub insert_by_seq : Message → List Message → List Message
insert_by_seq m [] = m ∷ []
insert_by_seq m (n ∷ l) =
    let rest = insert_by_seq m l in if ltb m.seq n.seq then m ∷ n ∷ l else n ∷ rest

unfoldable pub sort_from : List Message → List Message → List Message
sort_from done [] = done
sort_from done (m ∷ l) = sort_from (insert_by_seq m done) l

unfoldable pub sort_by_seq : List Message → List Message
unfolding sort_from insert_by_seq
sort_by_seq l = sort_from [] l

module _ ⦃bolt : Bolt⦄ ⦃casing : Casing⦄ ⦃a : Aead⦄ where
  unfoldable pub pending_msgs : Text → Store → Res (List Message)
  unfolding pending_rows
  pending_msgs peer s = do
    out ← pending_rows s.keys (bolt.get s.db.msgs) peer (bolt.pairs s.db.outbox)
    ok (sort_by_seq out)
