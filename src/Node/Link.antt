-- ===== src/Node/Link.antt =====
-- A session as internal/node/link.go serves it: speaks, awaitFileAck, cancelFileAck,
-- deliverFileAck, newLink and readLoop, with handleRoomReaction of internal/node/rooms.go. A turn
-- says what the loop takes from outside: our name, the nonce that the store draws, the time in
-- nanoseconds, and whether the connection takes what is written. Recv hands on what Decode has
-- validated, or an error. The events of rooms and of chunks are left out.
pub mod Acks
pub mod Stored
pub mod Rate
pub mod Repeats
pub mod Erasure
pub mod Exchange
pub mod Mail
use chirp.Prelude.{
  ℕ, suc, ◌-◌, Bool, true, false, ◌||◌, List, [], ◌∷◌, ◌++◌, map, Text, codes, text_eq, Option,
  none, some, ok, err, ltb, if◌then◌else◌,
}
use chirp.Prelude.Int.{ℤ}
use chirp.Crypto.Aead.{Aead}
use chirp.Identity.Fingerprint.{Sha256}
use chirp.Proto.Envelope.{Envelope, MsgType, is_empty}
use chirp.Store.Bolt.{Bolt}
use chirp.Store.Casing.{Casing}
use chirp.Store.Rows.{Message, dir_in, Status, Store}
use chirp.Store.Errors.{Res}
use chirp.Store.Messages.{add_message, mark_delivered, delete_message}
use chirp.Store.Rooms.{get_room}
use chirp.Store.Rooms.Reactions.{toggle_room_reaction}
use chirp.Store.Files.{Vault}
use chirp.Node.Transfer.{bare, Session, no_rx, on_file, on_chunk}
use chirp.Node.Rooms.{admits, handle_room_msg, handle_room_ack, handle_room_event}

-- What a waiting transfer has been told.
pub data Answer : Type 0 where
  waiting : Answer
  answered : ℤ → Answer

pub data Event : Type 0 where
  message status : Text → Message → Event
  reaction : Text → Text → Text → Event
  peers typing : Text → Event
  read : Text → Text → Event
  file : Text → Envelope → Event

pub data Out : Type 0 where
  send : Envelope → Out
  emit : Event → Out

pub record Turn : Type 0 where
  pub me : Text
  pub nonce : Text
  pub now : ℕ
  pub writes : Bool

-- rate_start is none where the zero time stands.
pub record Link ⦃bolt : Bolt⦄ : Type 0 where
  pub session : Session
  pub caps : List Text
  pub rate_start : Option ℕ
  pub msg_count : ℕ
  pub file_ack : Text → Option Answer

abbrev pub max_msg_per_sec : ℕ
max_msg_per_sec = 100

-- time.Second
abbrev pub second : ℕ
second = 1000000000

unfoldable pub speaks : List Text → Text → Bool
speaks [] cap = false
speaks (c ∷ l) cap = text_eq c cap || speaks l cap

abbrev pub cap_resume : Text
cap_resume = codes "resume"

abbrev pub cap_rooms : Text
cap_rooms = codes "rooms"

abbrev pub update_ack : (Text → Option Answer) → Text → Option Answer → Text → Option Answer
update_ack f id v j = if text_eq id j then v else f j

-- An answer that comes late, unasked or twice changes nothing.
unfoldable pub answer : ℤ → Option Answer → Option Answer
answer offset (some waiting) = some (answered offset)
answer offset ack = ack

abbrev pub ack_of : Text → Envelope
ack_of id = record (bare MsgType.ack) { id = id }

-- The row of an inbound message.
abbrev pub inbound_message : Text → ℕ → Envelope → Message
inbound_message peer now e = record {
  id = e.id;
  peer = peer;
  dir = dir_in;
  body = e.body;
  ts = now;
  status = Status.received;
  attempts = 0;
  last_try = 0;
  seq = 0;
  reply_to = e.reply_to;
}

unfoldable pub announce : Text → Option Message → Bool → List Out
announce peer (some m) false = emit (Event.message peer m) ∷ []
announce peer _ _ = []

window_over : ℕ → Option ℕ → Bool
window_over now none = true
window_over now (some start) = ltb second (now - start)

unfoldable pub told : (Message → Event) → Res (Message × Bool) → List Out
told f (ok (m, true)) = emit (f m) ∷ []
told f _ = []

-- Replies are written to the connection; where it fails, the read loop goes on until Recv fails.
abbrev pub written : Turn → List Envelope → List Out
written t es = if t.writes then map send es else []

module _ ⦃bolt : Bolt⦄ where
  abbrev pub new_link : Text → List Text → Vault → Link
  new_link peer caps v = record {
    session = record {
      peer = peer;
      resumes = speaks caps cap_resume;
      rx = no_rx;
      vault = v;
      up = true;
    };
    caps = caps;
    rate_start = none;
    msg_count = 0;
    file_ack = λ id. none;
  }

  unfoldable pub await_file_ack : Text → Link → Link
  await_file_ack id l = record l { file_ack = update_ack l.file_ack id (some waiting) }

  unfoldable pub cancel_file_ack : Text → Link → Link
  cancel_file_ack id l = record l { file_ack = update_ack l.file_ack id none }

  unfoldable pub deliver_file_ack : Text → ℤ → Link → Link
  deliver_file_ack id offset l = record l {
    file_ack = update_ack l.file_ack id (answer offset (l.file_ack id));
  }

  abbrev pub store_of : Link → Store
  store_of l = l.session.vault.store

  unfoldable pub with_store : Store → Link → Link
  with_store s l = record l {
    session = record (l.session) { vault = record (l.session.vault) { store = s } };
  }

  unfoldable pub with_session : Session → Link → Link
  with_session s l = record l { session = s }

  -- conn.Close(), or a return from the loop, after which the connection is closed too.
  unfoldable pub closed : Link → Link
  closed l = record l { session = record (l.session) { up = false } }

  unfoldable pub count_msg : ℕ → Link → Link
  unfolding window_over
  count_msg now l =
      if window_over now l.rate_start
      then record l { rate_start = some now; msg_count = 1 }
      else record l { msg_count = suc l.msg_count }

  -- What is not stored is not acknowledged; a duplicate is acknowledged again and not announced.
  unfoldable pub acked : Turn → Envelope → Res (Option Message × Bool) → Link → List Out × Link
  unfolding announce
  acked t e (err x) l = ([], closed l)
  acked t e (ok (m, dup)) l =
      if t.writes then (send (ack_of e.id) ∷ announce l.session.peer m dup, l) else ([], closed l)

  unfoldable pub deleted : Text → Link → Link
  deleted id l = elim (delete_message id (store_of l).db) [
    | ok db ↦ with_store (record (store_of l) { db = db }) l
    | err x ↦ l
  ]

  unfoldable pub on_del : Envelope → Link → List Out × Link
  on_del e l = (emit (Event.peers l.session.peer) ∷ [], deleted e.target l)

  -- The answer to a header ends the session where it cannot be written.
  file_begun : Turn → Envelope → Session × List Envelope → Link → List Out × Link
  file_begun t e (s, []) l = (emit (Event.file s.peer e) ∷ [], with_session s l)
  file_begun t e (s, b ∷ bs) l =
      if t.writes
      then (send b ∷ emit (Event.file s.peer e) ∷ [], with_session s l)
      else ([], closed (with_session s l))

  unfoldable pub on_header : Turn → Envelope → Link → List Out × Link
  unfolding file_begun
  on_header t e l = file_begun t e (on_file t.now e l.session) l

  module _ ⦃casing : Casing⦄ ⦃a : Aead⦄ where
    unfoldable pub on_msg : Turn → Envelope → Link → List Out × Link
    on_msg t e l =
        let c = count_msg t.now l in
        let (r, s) = add_message t.nonce (inbound_message l.session.peer t.now e) (store_of l) in
        if ltb max_msg_per_sec c.msg_count then ([], closed c) else acked t e r (with_store s c)

    unfoldable pub on_ack : Envelope → Link → List Out × Link
    on_ack e l =
        let (r, s) = mark_delivered l.session.peer e.id (store_of l) in
        (told (Event.status l.session.peer) r, with_store s l)

    -- As with every other room envelope, only a member of a joined room is heard.
    unfoldable pub handle_room_reaction : Text → Text → Envelope → Store → Store
    handle_room_reaction me actor e s =
        if admits me actor (get_room e.room s)
        then (toggle_room_reaction e.room e.target actor e.emoji s).1
        else s

    unfoldable pub on_react : Turn → Envelope → Link → List Out × Link
    on_react t e l =
        if is_empty e.room
        then (emit (Event.reaction l.session.peer e.emoji e.target) ∷ [], l)
        else ([], with_store (handle_room_reaction t.me l.session.peer e (store_of l)) l)

    unfoldable pub on_room_msg : Turn → Envelope → Link → List Out × Link
    on_room_msg t e l =
        let (es, s) = handle_room_msg t.nonce t.me l.session.peer e (store_of l) in
        (written t es, with_store s l)

    module _ ⦃sha : Sha256⦄ where
      -- The switch of readLoop.
      unfoldable pub dispatch : MsgType → Turn → Envelope → Link → List Out × Link
      dispatch MsgType.ping t e l = ([], l)
      dispatch MsgType.msg t e l = on_msg t e l
      dispatch MsgType.ack t e l = on_ack e l
      dispatch MsgType.react t e l = on_react t e l
      dispatch MsgType.del t e l = on_del e l
      dispatch MsgType.delall t e l = on_del e l
      dispatch MsgType.typing t e l = (emit (Event.typing l.session.peer) ∷ [], l)
      dispatch MsgType.read t e l = (emit (Event.read l.session.peer e.target) ∷ [], l)
      dispatch MsgType.file t e l = on_header t e l
      dispatch MsgType.fileack t e l = ([], deliver_file_ack e.id e.offset l)
      dispatch MsgType.chunk t e l = ([], with_session (on_chunk t.nonce e l.session) l)
      dispatch MsgType.roommsg t e l = on_room_msg t e l
      dispatch MsgType.roomack t e l =
          ([], with_store (handle_room_ack l.session.peer e (store_of l)) l)
      dispatch MsgType.roomevent t e l =
          ([], with_store (handle_room_event t.nonce t.me l.session.peer e (store_of l)) l)
      dispatch (MsgType.unknown x) t e l = ([], l)

      -- None is an error of Recv.
      unfoldable pub receive : Turn → Option Envelope → Link → List Out × Link
      receive t none l = ([], closed l)
      receive t (some e) l = dispatch e.t t e l

      unfoldable pub read_loop : List (Turn × Option Envelope) → Link → List Out × Link
      read_loop [] l = ([], l)
      read_loop ((t, r) ∷ inputs) l =
          let (out, m) = receive t r l in
          let (more, n) = read_loop inputs m in if m.session.up then (out ++ more, n) else (out, m)
