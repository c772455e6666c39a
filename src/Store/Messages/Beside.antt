-- ===== src/Store/Messages/Beside.antt =====
-- The operations on messages in internal/store/store.go, but for ForgetPeer, leave the pinned peers
-- as they are.
use chirp.Prelude.{
  ℕ, ◌≡◌, refl, Bool, List, [], ◌∷◌, Text, Option, none, some, ok, arith, Result-cases, inl, inr,
}
use chirp.Crypto.Aead.{Aead}
use chirp.Store.Bolt.{Bolt}
use chirp.Store.Casing.{Casing}
use chirp.Store.Rows.{Message, Db, Store}
use chirp.Store.Seals.{encrypt_string}
use chirp.Store.Messages.{
  load_by_id, put_msg, remove_msg, delivered_db, attempt_db, add_row, deliver_row, add_message,
  mark_delivered, record_attempt, delete_from_outbox, delete_message, delete_messages, remove_all,
  chosen,
}

module _ ⦃bolt : Bolt⦄ where
  pub record_attempt-peers :
      ⦃casing : Casing⦄ ⦃a : Aead⦄ (id : Text) (now : ℕ) (s : Store)
      → (record_attempt id now s).1.db.peers ≡ s.db.peers
  unfolding record_attempt attempt_db put_msg
  record_attempt-peers id now s = elim (Result-cases (load_by_id s.db id)) [
    | inr (x, e) ↦ ground arith
    | inl ((m, k), e) ↦ ground arith
  ]

  pub delete_from_outbox-peers :
      (id : Text) (db t : Db) → delete_from_outbox id db ≡ ok t → t.peers ≡ db.peers
  unfolding delete_from_outbox remove_msg
  delete_from_outbox-peers id db t h = elim (Result-cases (load_by_id db id)) [
    | inr (x, e) ↦ absurd (ground arith)
    | inl ((m, k), e) ↦ ground arith
  ]

  pub delete_message-peers :
      (id : Text) (db t : Db) → delete_message id db ≡ ok t → t.peers ≡ db.peers
  unfolding delete_message remove_msg
  delete_message-peers id db t h = elim (Result-cases (load_by_id db id)) [
    | inr (x, e) ↦ absurd (ground arith)
    | inl ((m, k), e) ↦ ground arith
  ]

  remove_all-peers : (l : List (Text × Text)) (db : Db) → (remove_all l db).peers ≡ db.peers
  unfolding remove_all remove_msg
  remove_all-peers [] db = refl
  remove_all-peers ((k, id) ∷ l) db = remove_all-peers l (remove_msg k id db)

  pub delete_messages-peers :
      (pred : Message → Bool) (db : Db) → (delete_messages pred db).peers ≡ db.peers
  unfolding delete_messages
  delete_messages-peers pred db = remove_all-peers (chosen pred (bolt.pairs db.msgs)) db

  module _ ⦃casing : Casing⦄ where
    add_row-peers : (m : Message) (o : Option Text) (db : Db) → (add_row m o db).1.peers ≡ db.peers
    unfolding add_row
    add_row-peers m none db = ground arith
    add_row-peers m (some k) db = ground arith

    pub add_message-peers :
        ⦃a : Aead⦄ (nonce : Text) (m : Message) (s : Store)
        → (add_message nonce m s).1.db.peers ≡ s.db.peers
    unfolding add_message
    add_message-peers nonce m s = elim (Result-cases (encrypt_string nonce s.keys m.body)) [
      | inr (x, e) ↦ ground arith
      | inl (body, e) ↦
          ground (arith, add_row-peers (record m { body = body }) (bolt.get s.db.idx m.id) s.db)
    ]

    pub mark_delivered-peers :
        ⦃a : Aead⦄ (peer id : Text) (s : Store) → (mark_delivered peer id s).1.db.peers ≡ s.db.peers
    unfolding mark_delivered deliver_row delivered_db put_msg
    mark_delivered-peers peer id s = elim (Result-cases (load_by_id s.db id)) [
      | inr (x, e) ↦ ground arith
      | inl ((m, k), e) ↦ ground arith
    ]
