-- ===== src/Store/Messages/Delivery.antt =====
-- A message is stored once and delivered once, by the peer it is for.
use chirp.Prelude.{
  suc, ◌<◌, ◌≡◌, ◌≢◌, ◌↔◌, Bool, true, false, ◌&&◌, Text, text_eq→eq, text_eq_refl, none, some, ok,
  err, arith, All, Option-cases, Result-cases, inl, inr,
}
use chirp.Crypto.Aead.{Aead}
use chirp.Store.Bolt.{Bolt}
use chirp.Store.Casing.{Casing}
use chirp.Store.Rows.{Message, Status, delivered, Db, Store}
use chirp.Store.Errors.{not_found}
use chirp.Store.Seals.{encrypt_string}
use chirp.Store.Seals.Laws.{IsNonce, Unlocked, decrypt-encrypt_string}
use chirp.Store.Messages.{
  msg_key, is_out, is_delivered, put_msg, load_by_id, delivered_db, add_row, deliver_row,
  add_message, mark_delivered, stored_message, decrypt_message,
}
use chirp.Store.Messages.Indexed.{Indexed, load_by_id-eq}

module _ ⦃bolt : Bolt⦄ ⦃casing : Casing⦄ ⦃a : Aead⦄ where
  -- With a nonce of 12 bytes and no passphrase key that stands alone: a message with a new id and a
  -- body of bytes that can be encrypted is stored under the next number and handed back with the
  -- body it came with, whether or not the store is encrypted.
  pub add_message-new :
      (nonce body : Text) (m : Message) (s : Store)
      → IsNonce nonce
      → Unlocked s.keys
      → All (λ b. b < 256) m.body
      → encrypt_string nonce s.keys m.body ≡ ok body
      → bolt.get s.db.idx m.id ≡ none
      → (add_message nonce m s).0 ≡ ok (some (record m { seq = suc s.db.msgs_seq }), false)
  unfolding add_message stored_message add_row decrypt_message
  add_message-new nonce body m s n u b e i =
      ground (arith, decrypt-encrypt_string nonce s.keys m.body body n u b e)

  -- Once a message has been stored, a message with the same id is reported as a duplicate and
  -- leaves the store as it is, whatever else it carries, if its body can be encrypted.
  add_message-again :
      (nonce nonce' body : Text) (m n x : Message) (s t : Store)
      → add_message nonce m s ≡ (ok (some x, false), t)
      → n.id ≡ m.id
      → encrypt_string nonce' t.keys n.body ≡ ok body
      → add_message nonce' n t ≡ (ok (none, true), t)
  unfolding add_message stored_message add_row
  add_message-again nonce nonce' body m n x s t h i e =
      elim (Result-cases (encrypt_string nonce s.keys m.body)) [
        | inr (z, f) ↦ absurd (ground arith)
        | inl (c, f) ↦ elim (Option-cases (bolt.get s.db.idx m.id)) [
          | inr (k, g) ↦ absurd (ground arith)
          | inl g ↦ ground (
            arith,
            bolt.get-put s.db.idx m.id n.id (msg_key m.peer (suc s.db.msgs_seq)),
            text_eq_refl m.id,
          )
        ]
      ]

  is_delivered_iff : (t : Status) → (is_delivered t ≡ true) ↔ (t ≡ delivered)
  is_delivered_iff Status.queued = ground arith
  is_delivered_iff delivered = ground arith
  is_delivered_iff Status.received = ground arith

  -- A delivered message does not wait.
  pub outbox-delivered :
      (db : Db) (id k : Text) (n : Message)
      → Indexed db
      → load_by_id db id ≡ ok (n, k)
      → is_delivered n.status ≡ true
      → bolt.get db.outbox id ≡ none
  outbox-delivered db id k n w e d = elim (Option-cases (bolt.get db.outbox id)) [
    | inl f ↦ f
    | inr (j, f) ↦
        let (r, g) = w.unsent id j f in
        absurd (ground (arith, load_by_id-eq db id k n w e, w.at_key j r g.0))
  ]

  -- The index leads from the id to the row m.
  abbrev pub StoredAs : Db → Text → Message → Type 0
  StoredAs db id m = (k : Text) × (bolt.get db.idx id ≡ some k) × (bolt.get db.msgs k ≡ some m)

  -- Where rows, index and outbox agree, an acknowledgement that is accepted names an outbound
  -- message of the peer that sends it; afterwards the row to which the index leads from its id is
  -- that message, and delivered, it is out of the outbox, and no row at another key has changed.
  pub deliver_row-delivered :
      (peer id j : Text) (m : Message) (c : Bool) (db db' : Db)
      → Indexed db
      → bolt.get db.idx id ≢ some j
      → deliver_row peer id db ≡ ok ((m, c), db')
      → (m.id ≡ id)
        × (is_out m.dir ≡ true)
        × (casing.equal_fold m.peer peer ≡ true)
        × (m.status ≡ delivered)
        × StoredAs db' id m
        × (bolt.get db'.outbox id ≡ none)
        × (bolt.get db'.msgs j ≡ bolt.get db.msgs j)
  unfolding deliver_row delivered_db put_msg
  deliver_row-delivered peer id j m c db db' w o h = elim (Result-cases (load_by_id db id)) [
    | inr (x, e) ↦ absurd (ground arith)
    | inl ((n, k), e) ↦ loaded n k e
  ]
    where
      stored :
          (n : Message) (k : Text)
          → load_by_id db id ≡ ok (n, k)
          → (bolt.get db'.idx id ≡ some k) × (bolt.get db'.msgs k ≡ some m)
      stored n k e = ground (
        arith,
        load_by_id-eq db id k n w e,
        is_delivered_iff n.status,
        bolt.get-put db.msgs k k (record n { status = delivered }),
        text_eq_refl k,
      )

      others :
          (n : Message) (k : Text)
          → load_by_id db id ≡ ok (n, k)
          → (m.id ≡ id)
            × (is_out m.dir ≡ true)
            × (casing.equal_fold m.peer peer ≡ true)
            × (m.status ≡ delivered)
            × (bolt.get db'.outbox id ≡ none)
            × (bolt.get db'.msgs j ≡ bolt.get db.msgs j)
      others n k e = ground (
        arith,
        load_by_id-eq db id k n w e,
        outbox-delivered db id k n w e,
        is_delivered_iff n.status,
        bolt.get-delete db.outbox id id,
        bolt.get-put db.msgs k j (record n { status = delivered }),
        text_eq_refl id,
        text_eq→eq k j,
      )

      loaded :
          (n : Message) (k : Text)
          → load_by_id db id ≡ ok (n, k)
          → (m.id ≡ id)
            × (is_out m.dir ≡ true)
            × (casing.equal_fold m.peer peer ≡ true)
            × (m.status ≡ delivered)
            × StoredAs db' id m
            × (bolt.get db'.outbox id ≡ none)
            × (bolt.get db'.msgs j ≡ bolt.get db.msgs j)
      loaded n k e =
          let (idx, row) = stored n k e in
          let (i, out, p, d, gone, rest) = others n k e in (i, out, p, d, (k, idx, row), gone, rest)

  -- Where rows, index and outbox agree, a second acknowledgement of a message is accepted, reports
  -- no change and makes none.
  deliver_row-again :
      (peer id : Text) (m : Message) (c : Bool) (db db' : Db)
      → Indexed db
      → deliver_row peer id db ≡ ok ((m, c), db')
      → deliver_row peer id db' ≡ ok ((m, false), db')
  unfolding deliver_row delivered_db put_msg load_by_id
  deliver_row-again peer id m c db db' w h = elim (Result-cases (load_by_id db id)) [
    | inr (x, e) ↦ absurd (ground arith)
    | inl ((n, k), e) ↦ loaded n k e
  ]
    where
      loaded :
          (n : Message) (k : Text)
          → load_by_id db id ≡ ok (n, k)
          → deliver_row peer id db' ≡ ok ((m, false), db')
      loaded n k e = ground (
        arith,
        load_by_id-eq db id k n w e,
        is_delivered_iff n.status,
        bolt.get-put db.msgs k k (record n { status = delivered }),
        text_eq_refl k,
      )

  -- An acknowledgement from any other peer, or of an inbound message, is refused without a change.
  mark_delivered-other :
      (peer id k : Text) (m : Message) (s : Store)
      → load_by_id s.db id ≡ ok (m, k)
      → (is_out m.dir && casing.equal_fold m.peer peer) ≡ false
      → mark_delivered peer id s ≡ (err not_found, s)
  unfolding mark_delivered deliver_row
  mark_delivered-other peer id k m s h e = ground arith
