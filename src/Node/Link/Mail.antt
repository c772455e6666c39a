-- ===== src/Node/Link/Mail.antt =====
-- What a session and the sending of messages do keeps rows, index and outbox together: readLoop of
-- internal/node/link.go, and establish, SendReply, SendFile, flush and flushFile of
-- internal/node/node.go.
use chirp.Prelude.{
  suc, ◌<◌, ◌≡◌, refl, List, [], ◌∷◌, Text, Option, none, some, arith, Result-cases, inl, inr,
}
use chirp.Crypto.Aead.{Aead}
use chirp.Identity.Fingerprint.{Sha256}
use chirp.Proto.Envelope.{Envelope, MsgType}
use chirp.Store.Bolt.{Bolt}
use chirp.Store.Casing.{Casing}
use chirp.Store.Messages.{add_message, delete_message}
use chirp.Store.Messages.Indexed.{Indexed}
use chirp.Store.Messages.Beside.{add_message-peers, mark_delivered-peers, delete_message-peers}
use chirp.Store.Messages.Mail.{Apart, Next, Quiet, Apart-Quiet}
use chirp.Store.Messages.History.{add-Next, deliver-Next, delete-Next, committed}
use chirp.Store.Rooms.Mail.{toggle_room_reaction-Apart}
use chirp.Node.Transfer.{Session, on_file, on_chunk}
use chirp.Node.Transfer.Mail.{on_file-Apart, on_chunk-Apart}
use chirp.Node.Rooms.{handle_room_event, handle_room_ack}
use chirp.Node.Rooms.Mail.{handle_room_event-Apart, handle_room_msg-Apart, handle_room_ack-Apart}
use chirp.Node.Link.{
  Turn, Link, store_of, with_store, with_session, closed, count_msg, acked, inbound_message,
  deleted, on_del, file_begun, on_header, on_msg, on_ack, handle_room_reaction, on_react,
  on_room_msg, dispatch, deliver_file_ack, receive,
}

module _ ⦃bolt : Bolt⦄ where
  file_begun-store :
      (t : Turn) (e : Envelope) (r : Session × List Envelope) (l : Link)
      → store_of (file_begun t e r l).1 ≡ r.0.vault.store
  unfolding file_begun with_session closed
  file_begun-store t e (s, []) l = refl
  file_begun-store t e (s, b ∷ bs) l = ground arith

  module _ ⦃casing : Casing⦄ where
    same : (l : Link) → Indexed (store_of l).db → Quiet (store_of l) (store_of l)
    same l w = ground (arith, w)

    module _ ⦃a : Aead⦄ where
      deleted-Quiet :
          (id : Text) (l : Link)
          → Indexed (store_of l).db
          → Quiet (store_of l) (store_of (deleted id l))
      unfolding deleted with_store committed
      deleted-Quiet id l w = elim (Result-cases (delete_message id (store_of l).db)) [
        | inr (x, e) ↦ ground arith
        | inl (db, e) ↦
            let next : Next (store_of l)
                (committed (store_of l) (delete_message id (store_of l).db)) =
              delete-Next id (store_of l) w in
            ground (arith, delete_message-peers id (store_of l).db db e)
      ]

      on_msg-Quiet :
          (t : Turn) (e : Envelope) (l : Link)
          → Indexed (store_of l).db
          → suc (store_of l).db.msgs_seq < 18446744073709551616
          → Quiet (store_of l) (store_of (on_msg t e l).1)
      unfolding on_msg count_msg acked with_store closed
      on_msg-Quiet t e l w b =
          let m = inbound_message l.session.peer t.now e in
          let r = add_message t.nonce m (store_of l) in
          let next = add-Next t.nonce m (store_of l) w b in
          let peers = add_message-peers t.nonce m (store_of l) in
          elim (Result-cases r.0) [ inr (x, h) ↦ ground arith | inl ((n, dup), h) ↦ ground arith ]

      on_ack-Quiet :
          (e : Envelope) (l : Link)
          → Indexed (store_of l).db
          → Quiet (store_of l) (store_of (on_ack e l).1)
      unfolding on_ack with_store
      on_ack-Quiet e l w = (
        deliver-Next l.session.peer e.id (store_of l) w,
        mark_delivered-peers l.session.peer e.id (store_of l),
      )

      on_react-Apart :
          (t : Turn) (e : Envelope) (l : Link)
          → Apart (store_of (on_react t e l).1).db (store_of l).db
      unfolding on_react handle_room_reaction with_store
      on_react-Apart t e l =
          ground
            (arith, toggle_room_reaction-Apart e.room e.target l.session.peer e.emoji (store_of l))

      on_room_msg-Apart :
          (t : Turn) (e : Envelope) (l : Link)
          → Apart (store_of (on_room_msg t e l).1).db (store_of l).db
      unfolding on_room_msg with_store
      on_room_msg-Apart t e l = handle_room_msg-Apart t.nonce t.me l.session.peer e (store_of l)

      on_header-Apart :
          (t : Turn) (e : Envelope) (l : Link)
          → Apart (store_of (on_header t e l).1).db (store_of l).db
      unfolding on_header
      on_header-Apart t e l =
          rw (file_begun-store t e (on_file t.now e l.session) l) (on_file-Apart t.now e l.session)

      module _ ⦃sha : Sha256⦄ where
        dispatch-Quiet :
            (k : MsgType) (t : Turn) (e : Envelope) (l : Link)
            → Indexed (store_of l).db
            → suc (store_of l).db.msgs_seq < 18446744073709551616
            → Quiet (store_of l) (store_of (dispatch k t e l).1)
        unfolding dispatch on_del deliver_file_ack with_store with_session
        dispatch-Quiet MsgType.ping t e l w b = same l w
        dispatch-Quiet MsgType.msg t e l w b = on_msg-Quiet t e l w b
        dispatch-Quiet MsgType.ack t e l w b = on_ack-Quiet e l w
        dispatch-Quiet MsgType.react t e l w b =
            Apart-Quiet (store_of l) (store_of (on_react t e l).1) (on_react-Apart t e l) w
        dispatch-Quiet MsgType.del t e l w b = deleted-Quiet e.target l w
        dispatch-Quiet MsgType.delall t e l w b = deleted-Quiet e.target l w
        dispatch-Quiet MsgType.typing t e l w b = same l w
        dispatch-Quiet MsgType.read t e l w b = same l w
        dispatch-Quiet MsgType.file t e l w b =
            Apart-Quiet (store_of l) (store_of (on_header t e l).1) (on_header-Apart t e l) w
        dispatch-Quiet MsgType.fileack t e l w b = same l w
        dispatch-Quiet MsgType.chunk t e l w b =
            Apart-Quiet (store_of l) (on_chunk t.nonce e l.session).vault.store
              (on_chunk-Apart t.nonce e l.session) w
        dispatch-Quiet MsgType.roommsg t e l w b =
            Apart-Quiet (store_of l) (store_of (on_room_msg t e l).1) (on_room_msg-Apart t e l) w
        dispatch-Quiet MsgType.roomack t e l w b =
            Apart-Quiet (store_of l) (handle_room_ack l.session.peer e (store_of l))
              (handle_room_ack-Apart l.session.peer e (store_of l)) w
        dispatch-Quiet MsgType.roomevent t e l w b =
            Apart-Quiet (store_of l) (handle_room_event t.nonce t.me l.session.peer e (store_of l))
              (handle_room_event-Apart t.nonce t.me l.session.peer e (store_of l)) w
        dispatch-Quiet (MsgType.unknown x) t e l w b = same l w

        pub receive-Quiet :
            (t : Turn) (r : Option Envelope) (l : Link)
            → Indexed (store_of l).db
            → suc (store_of l).db.msgs_seq < 18446744073709551616
            → Quiet (store_of l) (store_of (receive t r l).1)
        unfolding receive closed
        receive-Quiet t none l w b = same l w
        receive-Quiet t (some e) l w b = dispatch-Quiet e.t t e l w b
