-- ===== src/Node/Link/Exchange.antt =====
-- Both ends of one message: the envelope that flush writes, the acknowledgement of the peer's
-- readLoop, and what our own readLoop does with it.
use chirp.Prelude.{
  ◌<◌, suc, ◌≡◌, true, false, ◌&&◌, List, [], ◌∷◌, ◌++◌, map, refl, Text, text_eq_refl, Bool, ap,
  Option, none, some, ok, ltb, All, arith, Option-cases, Bool-cases, inl, inr,
}
use chirp.Crypto.Aead.{Aead}
use chirp.Identity.Fingerprint.{Sha256}
use chirp.Proto.Envelope.{Envelope}
use chirp.Store.Bolt.{Bolt}
use chirp.Store.Casing.{Casing}
use chirp.Store.Rows.{Message, dir_in, delivered, Db, Store}
use chirp.Store.Seals.{encrypt_string, decrypt_string}
use chirp.Store.Seals.Laws.{IsNonce, Unlocked, decrypt-encrypt_string}
use chirp.Store.Messages.{
  msg_key, add_row, pending_msgs, is_out, is_delivered, delivered_db, put_msg, load_by_id,
  add_message, deliver_row, mark_delivered,
}
use chirp.Store.Messages.Indexed.{Indexed}
use chirp.Store.Messages.Delivery.{add_message-new, outbox-delivered}
use chirp.Node.Link.{
  Turn, Link, max_msg_per_sec, ack_of, inbound_message, store_of, with_store, count_msg, acked,
  on_msg, on_ack, dispatch, receive,
}
use chirp.Node.Link.Acks.{acks}
use chirp.Node.Link.Repeats.{add_message-known}
use chirp.Node.Outbox.{Timing, is_valid, msg_envelope, flush}
use chirp.Node.Outbox.Forced.{Readable, flush-Readable, flush-forced}
use chirp.Node.Outbox.Mail.{flush-Flushes}

module _ ⦃bolt : Bolt⦄ ⦃casing : Casing⦄ ⦃a : Aead⦄ ⦃sha : Sha256⦄ where
  pub add_message-takes :
      (nonce body : Text) (m : Message) (s : Store)
      → IsNonce nonce
      → Unlocked s.keys
      → All (λ b. b < 256) m.body
      → encrypt_string nonce s.keys m.body ≡ ok body
      → (r : Option Message × Bool) × ((add_message nonce m s).0 ≡ ok r)
  add_message-takes nonce body m s n u b e = elim (Option-cases (bolt.get s.db.idx m.id)) [
    | inl i ↦ (_, add_message-new nonce body m s n u b e i)
    | inr (k, i) ↦ (_, ap (λ x. x.0) (add_message-known nonce body k m s i e))
  ]

  pub on_msg-acks :
      (t : Turn) (e : Envelope) (l : Link) (r : Option Message × Bool)
      → (add_message t.nonce (inbound_message l.session.peer t.now e) (store_of l)).0 ≡ ok r
      → t.writes ≡ true
      → ltb max_msg_per_sec (count_msg t.now l).msg_count ≡ false
      → acks e.id (on_msg t e l).0 ≡ true
  unfolding on_msg acked
  on_msg-acks t e l (m, d) h w u = ground (arith, text_eq_refl e.id)

  deliver_row-outbox :
      (peer id k : Text) (m : Message) (db : Db)
      → Indexed db
      → load_by_id db id ≡ ok (m, k)
      → (is_out m.dir && casing.equal_fold m.peer peer) ≡ true
      → (r : (Message × Bool) × Db) × ((deliver_row peer id db ≡ ok r)
          × (bolt.get r.1.outbox id ≡ none))
  unfolding deliver_row delivered_db put_msg
  deliver_row-outbox peer id k m db w f h = elim (Bool-cases (is_delivered m.status)) [
    | inl d ↦ (((m, false), db), ground (arith, outbox-delivered db id k m w f d))
    | inr d ↦ (
      (
        (record m { status = delivered }, true),
        delivered_db id k (record m { status = delivered }) db,
      ),
      ground (arith, bolt.get-delete db.outbox id id, text_eq_refl id),
    )
  ]

  on_ack-outbox :
      (e : Envelope) (l : Link) (m : Message) (k : Text)
      → Indexed (store_of l).db
      → load_by_id (store_of l).db e.id ≡ ok (m, k)
      → (is_out m.dir && casing.equal_fold m.peer l.session.peer) ≡ true
      → bolt.get (store_of (on_ack e l).1).db.outbox e.id ≡ none
  unfolding on_ack mark_delivered with_store
  on_ack-outbox e l m k w f h =
      let (r, (d, o)) = deliver_row-outbox l.session.peer e.id k m (store_of l).db w f h in
      ground (arith, d, o)

  -- The message as the other side files it: inbound, under the name of the session's peer.
  abbrev pub Received : Message → Link → Store → Type 0
  Received m l s =
      (k : Text) × (n : Message) × ((bolt.get s.db.idx m.id ≡ some k)
        × (bolt.get s.db.msgs k ≡ some n)
        × (n.id ≡ m.id)
        × (n.peer ≡ l.session.peer)
        × (n.dir ≡ dir_in)
        × (n.reply_to ≡ m.reply_to)
        × (decrypt_string s.keys n.body ≡ ok m.body))

  on_msg-Received :
      (t : Turn) (m : Message) (l : Link) (body : Text)
      → IsNonce t.nonce
      → Unlocked (store_of l).keys
      → All (λ b. b < 256) m.body
      → encrypt_string t.nonce (store_of l).keys m.body ≡ ok body
      → bolt.get (store_of l).db.idx m.id ≡ none
      → t.writes ≡ true
      → ltb max_msg_per_sec (count_msg t.now l).msg_count ≡ false
      → Received m l (store_of (on_msg t (msg_envelope m) l).1)
  unfolding on_msg acked add_message add_row with_store
  on_msg-Received t m l body n un by e new w u =
      let seq = suc (store_of l).db.msgs_seq in
      let k = msg_key l.session.peer seq in
      let row : Message = record (inbound_message l.session.peer t.now (msg_envelope m)) {
        body = body;
        seq = seq;
      } in
      let (r, ok_r) =
        add_message-takes t.nonce body (inbound_message l.session.peer t.now (msg_envelope m))
          (store_of l) n un by e in
      (
        k,
        row,
        ground (
          arith,
          ok_r,
          bolt.get-put (store_of l).db.idx m.id m.id k,
          bolt.get-put (store_of l).db.msgs k k row,
          text_eq_refl m.id,
          text_eq_refl k,
          decrypt-encrypt_string t.nonce (store_of l).keys m.body body n un by e,
        ),
      )

  flushed-ack :
      (t : Timing) (front back : List Message) (m : Message) (l : Link)
      → Indexed (store_of l).db
      → pending_msgs l.session.peer (store_of l) ≡ ok (front ++ (m ∷ back))
      → (is_out m.dir && casing.equal_fold m.peer l.session.peer) ≡ true
      → bolt.get
          (store_of
            (on_ack
              (ack_of m.id)
              (with_store (flush t l.session.peer (store_of l)).store l)).1).db.outbox
          m.id
        ≡ none
  unfolding Readable load_by_id with_store
  flushed-ack t front back m l w p f =
      let after = with_store (flush t l.session.peer (store_of l)).store l in
      let (row, k, b, (i, g, d, o, r)) =
        flush-Readable t l.session.peer (store_of l) front back m w p in
      on_ack-outbox (ack_of m.id) after row k (flush-Flushes t l.session.peer (store_of l) w).0
        (ground (arith, i, g)) (ground (arith, o, r, f))

  map-middle :
      (front back : List Message) (m : Message)
      → map msg_envelope (front ++ (m ∷ back))
        ≡ map msg_envelope front ++ (msg_envelope m ∷ map msg_envelope back)
  map-middle [] back m = refl
  map-middle (n ∷ front) back m = ground (arith, map-middle front back m)

  -- A forced flush over a connection that takes what is written sends a message that waits for the
  -- peer, among the others that wait and in the order in which Pending lists them; the other side,
  -- which had no message with that id, acknowledges it and has a row under its id, inbound and
  -- under the name of its session's peer, whose body decrypts to the body sent and which answers
  -- the same message; when that acknowledgement is received after the flush, the message is out of
  -- our outbox. The rows, index and outbox of our store agree, the message is an outbound one of
  -- the peer's, the envelopes of all that wait are valid, the body is bytes that encrypt, the other
  -- side's nonce is 12 bytes and its fallback key is not the only one, its connection takes what is
  -- written, and the rate limit is not passed.
  pub exchange :
      (t u : Turn) (flushing : Timing) (front back : List Message) (m : Message) (body : Text)
      (mine theirs : Link)
      → Indexed (store_of mine).db
      → pending_msgs mine.session.peer (store_of mine) ≡ ok (front ++ (m ∷ back))
      → flushing.force ≡ true
      → flushing.writes ≡ true
      → All (λ n. is_valid (msg_envelope n) ≡ true) (front ++ (m ∷ back))
      → (is_out m.dir && casing.equal_fold m.peer mine.session.peer) ≡ true
      → bolt.get (store_of theirs).db.idx m.id ≡ none
      → IsNonce t.nonce
      → Unlocked (store_of theirs).keys
      → All (λ b. b < 256) m.body
      → encrypt_string t.nonce (store_of theirs).keys m.body ≡ ok body
      → t.writes ≡ true
      → ltb max_msg_per_sec (count_msg t.now theirs).msg_count ≡ false
      → ((flush flushing mine.session.peer (store_of mine)).sent
          ≡ map msg_envelope front ++ (msg_envelope m ∷ map msg_envelope back))
        × (acks m.id (receive t (some (msg_envelope m)) theirs).0 ≡ true)
        × Received m theirs (store_of (receive t (some (msg_envelope m)) theirs).1)
        × (bolt.get
              (store_of
                (receive u (some (ack_of m.id)) (
                  with_store
                    (flush flushing mine.session.peer (store_of mine)).store
                    mine)).1).db.outbox
              m.id
            ≡ none)
  unfolding receive dispatch
  exchange t u flushing front back m body mine theirs w p fo wf v f new n un by e wr r =
      let sent = msg_envelope m in
      let (got, taken) =
        add_message-takes t.nonce body (inbound_message theirs.session.peer t.now sent)
          (store_of theirs) n un by e in
      let out =
        flush-forced flushing mine.session.peer (store_of mine) (front ++ (m ∷ back)) w p fo wf v in
      (
        ground (arith, out, map-middle front back m),
        on_msg-acks t sent theirs got taken wr r,
        on_msg-Received t m theirs body n un by e new wr r,
        flushed-ack flushing front back m mine w p f,
      )
