-- ===== src/Node/Link/Stored.antt =====
-- What readLoop of internal/node/link.go acknowledges is in the store.
use chirp.Prelude.{
  suc, ◌<◌, ◌≡◌, Bool, true, Text, text_eq→eq, text_eq_refl, Option, some, ok, err, ltb, arith,
  Option-cases, Result-cases, Bool-cases, inl, inr,
}
use chirp.Crypto.Aead.{Aead}
use chirp.Identity.Fingerprint.{Sha256}
use chirp.Proto.Envelope.{Envelope}
use chirp.Store.Bolt.{Bolt}
use chirp.Store.Casing.{Casing}
use chirp.Store.Rows.{Message}
use chirp.Store.Errors.{Res}
use chirp.Store.Seals.{encrypt_string}
use chirp.Store.Messages.{msg_key, add_row, add_message}
use chirp.Store.Messages.Indexed.{Indexed, add_row-Indexed}
use chirp.Node.Link.{
  Turn, Link, max_msg_per_sec, inbound_message, store_of, with_store, count_msg, acked, on_msg,
  dispatch, receive,
}
use chirp.Node.Link.Acks.{acks, acks→count, acks-announce, is_msg, dispatch-other, dispatch-is_msg}

module _ ⦃bolt : Bolt⦄ ⦃casing : Casing⦄ ⦃a : Aead⦄ ⦃sha : Sha256⦄ where
  -- An acknowledgement names the envelope's message.
  acked-acks :
      (t : Turn) (e : Envelope) (r : Res (Option Message × Bool)) (l : Link) (id : Text)
      → acks id (acked t e r l).0 ≡ true
      → (e.id ≡ id) × ((acked t e r l).1 ≡ l)
  unfolding acked
  acked-acks t e (err x) l id h = absurd (ground arith)
  acked-acks t e (ok (m, d)) l id h = elim (Bool-cases t.writes) [
    | inl w ↦ ground (arith, acks-announce id l.session.peer m d, text_eq→eq e.id id)
    | inr w ↦ absurd (ground arith)
  ]

  -- What is acknowledged has gone through the transaction of AddMessage.
  pub on_msg-added :
      (t : Turn) (e : Envelope) (l : Link) (id : Text)
      → acks id (on_msg t e l).0 ≡ true
      → (n : Message) × ((n.id ≡ id)
          × ((store_of (on_msg t e l).1).db
              ≡ (add_row n (bolt.get (store_of l).db.idx n.id) (store_of l).db).1))
  unfolding on_msg
  on_msg-added t e l id h = elim (Bool-cases (ltb max_msg_per_sec (count_msg t.now l).msg_count)) [
    | inl over ↦ absurd (ground arith)
    | inr under ↦ elim (Result-cases (encrypt_string t.nonce (store_of l).keys e.body)) [
      | inr (x, f) ↦ absurd (unfold add_message acked in ground arith)
      | inl (body, f) ↦ (
        record n { body = body },
        unfold add_message with_store in
            ground (
              arith,
              acked-acks t e (add_message t.nonce n (store_of l)).0
                  (with_store (add_message t.nonce n (store_of l)).1 (count_msg t.now l)) id,
            ),
      )
    ]
  ]
    where
      n : Message
      n = inbound_message l.session.peer t.now e

  -- The row that the index leads to, in a database whose buckets agree.
  unfoldable pub Filed : Text → Link → Type 0
  Filed id l =
      (k : Text) × (m : Message) × ((bolt.get (store_of l).db.idx id ≡ some k)
        × (bolt.get (store_of l).db.msgs k ≡ some m)
        × (m.id ≡ id))

  pub added_idx :
      (n : Message) (l : Link)
      → (k : Text) × (bolt.get
            (add_row n (bolt.get (store_of l).db.idx n.id) (store_of l).db).1.idx
            n.id
          ≡ some k)
  unfolding add_row
  added_idx n l = elim (Option-cases (bolt.get (store_of l).db.idx n.id)) [
    | inl e ↦ (
      msg_key n.peer (suc (store_of l).db.msgs_seq),
      rw e (
          ground (
            arith,
            bolt.get-put (store_of l).db.idx n.id n.id
                (msg_key n.peer (suc (store_of l).db.msgs_seq)),
            text_eq_refl n.id,
          )),
    )
    | inr (k, e) ↦ (k, ground arith)
  ]

  on_msg-Filed :
      (t : Turn) (e : Envelope) (l : Link) (id : Text)
      → Indexed (store_of l).db
      → suc (store_of l).db.msgs_seq < 18446744073709551616
      → acks id (on_msg t e l).0 ≡ true
      → Filed id (on_msg t e l).1
  unfolding Filed
  on_msg-Filed t e l id w b h =
      let (n, (i, d)) = on_msg-added t e l id h in
      let (k, f) = added_idx n l in
      let (m, g) = (add_row-Indexed n (store_of l).db w b).row_of n.id k f in (k, m, ground arith)

  -- Whatever a session receives, a message that it acknowledges is in the store afterwards: the
  -- index leads from its id to a row with that id. The rows, index and outbox agree before, and the
  -- numbers fit in 64 bits.
  pub receive-stored :
      (t : Turn) (e : Envelope) (l : Link) (id : Text)
      → Indexed (store_of l).db
      → suc (store_of l).db.msgs_seq < 18446744073709551616
      → acks id (receive t (some e) l).0 ≡ true
      → Filed id (receive t (some e) l).1
  unfolding receive
  receive-stored t e l id w b h = elim (Bool-cases (is_msg e.t)) [
    | inr other ↦
        absurd (
          omega (arith, (dispatch-other e.t t e l other).0, acks→count id (dispatch e.t t e l).0 h))
    | inl msg ↦
        let same = dispatch-is_msg e.t t e l msg in
        rw same (on_msg-Filed t e l id w b (rw same at h))
  ]
