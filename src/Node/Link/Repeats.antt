-- ===== src/Node/Link/Repeats.antt =====
-- A chat message that arrives twice: readLoop of internal/node/link.go.
use chirp.Prelude.{◌≡◌, refl, true, false, [], ◌∷◌, Text, some, none, ok, ltb, arith}
use chirp.Crypto.Aead.{Aead}
use chirp.Identity.Fingerprint.{Sha256}
use chirp.Proto.Envelope.{Envelope, MsgType}
use chirp.Store.Bolt.{Bolt}
use chirp.Store.Casing.{Casing}
use chirp.Store.Rows.{Message, Store}
use chirp.Store.Seals.{encrypt_string}
use chirp.Store.Messages.{add_row, add_message, stored_message}
use chirp.Node.Link.{
  send, Turn, Link, max_msg_per_sec, ack_of, inbound_message, announce, store_of, with_store,
  count_msg, acked, on_msg, receive,
}
use chirp.Node.Link.Acks.{acks, is_msg, dispatch-is_msg}
use chirp.Node.Link.Stored.{on_msg-added, added_idx}

module _ ⦃bolt : Bolt⦄ ⦃casing : Casing⦄ ⦃a : Aead⦄ ⦃sha : Sha256⦄ where
  pub add_message-known :
      (nonce body k : Text) (n : Message) (s : Store)
      → bolt.get s.db.idx n.id ≡ some k
      → encrypt_string nonce s.keys n.body ≡ ok body
      → add_message nonce n s ≡ (ok (none, true), s)
  unfolding add_message stored_message add_row
  add_message-known nonce body k n s i f = ground arith

  -- A message whose id the index has is acknowledged, and nothing else happens.
  on_msg-known :
      (t : Turn) (e : Envelope) (l : Link) (body k : Text)
      → bolt.get (store_of l).db.idx e.id ≡ some k
      → encrypt_string t.nonce (store_of l).keys e.body ≡ ok body
      → t.writes ≡ true
      → ltb max_msg_per_sec (count_msg t.now l).msg_count ≡ false
      → ((on_msg t e l).0 ≡ send (ack_of e.id) ∷ []) × (store_of (on_msg t e l).1 ≡ store_of l)
  unfolding on_msg acked announce with_store
  on_msg-known t e l body k i f w u =
      let n = inbound_message l.session.peer t.now e in
      rw (u, add_message-known t.nonce body k n (store_of l) i f, w) (refl, refl)

  -- A message that has been acknowledged and comes again is acknowledged again, and leaves the
  -- store as it is, if its body can be encrypted, the connection takes what is written and the rate
  -- limit is not passed.
  receive-again :
      (t t' : Turn) (e : Envelope) (l m : Link) (body : Text)
      → e.t ≡ MsgType.msg
      → acks e.id (receive t (some e) l).0 ≡ true
      → (receive t (some e) l).1 ≡ m
      → encrypt_string t'.nonce (store_of m).keys e.body ≡ ok body
      → t'.writes ≡ true
      → ltb max_msg_per_sec (count_msg t'.now m).msg_count ≡ false
      → ((receive t' (some e) m).0 ≡ send (ack_of e.id) ∷ [])
        × (store_of (receive t' (some e) m).1 ≡ store_of m)
  unfolding receive
  receive-again t t' e l m body ty h q f w u =
      let msg : is_msg e.t ≡ true = rw ty refl in
      let first = dispatch-is_msg e.t t e l msg in
      let (n, (i, d)) = on_msg-added t e l e.id (rw first at h) in
      let (k, known) = added_idx n l in
      rw (dispatch-is_msg e.t t' e m msg)
        (on_msg-known t' e m body k (cc (i, d, known, q, first)) f w u)
