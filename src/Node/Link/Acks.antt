-- ===== src/Node/Link/Acks.antt =====
-- What a session acknowledges: readLoop of internal/node/link.go.
use chirp.Prelude.{
  ℕ, ◌+◌, ◌≤◌, ◌≡◌, refl, Bool, true, false, ◌&&◌, ◌||◌, List, [], ◌∷◌, ◌++◌, Text, text_eq, Option,
  none, some, ok, err, All, arith, if◌then◌else◌, Bool-cases, inl, inr,
}
use chirp.Crypto.Aead.{Aead}
use chirp.Identity.Fingerprint.{Sha256}
use chirp.Proto.Envelope.{Envelope, MsgType}
use chirp.Store.Bolt.{Bolt}
use chirp.Store.Casing.{Casing}
use chirp.Store.Rows.{Message}
use chirp.Store.Errors.{Res}
use chirp.Node.Rooms.{handle_room_msg, ack_unless}
use chirp.Node.Transfer.{Session, on_file}
use chirp.Node.Link.{
  Out, send, emit, Event, Turn, Link, announce, with_store, with_session, closed, acked, told,
  deleted, on_del, file_begun, on_header, on_msg, on_ack, on_react, on_room_msg, deliver_file_ack,
  dispatch,
}

abbrev pub is_ack : Out → Bool
is_ack (send e) = elim e.t [ MsgType.ack ↦ true | _ ↦ false ]
is_ack (emit v) = false

-- Whether the message with this id is acknowledged, and how many are.
abbrev pub acks : Text → List Out → Bool
acks id [] = false
acks id (send e ∷ l) = is_ack (send e) && text_eq e.id id || acks id l
acks id (emit v ∷ l) = acks id l

abbrev pub count_acks : List Out → ℕ
count_acks [] = 0
count_acks (o ∷ l) = (if is_ack o then 1 else 0) + count_acks l

pub count_acks-append : (l m : List Out) → count_acks (l ++ m) ≡ count_acks l + count_acks m
count_acks-append [] m = omega arith
count_acks-append (o ∷ l) m = ground (arith, count_acks-append l m)

pub acks→count : (id : Text) (l : List Out) → acks id l ≡ true → 1 ≤ count_acks l
acks→count id [] h = absurd (ground arith)
acks→count id (send e ∷ l) h = ground (arith, acks→count id l)
acks→count id (emit v ∷ l) h = ground (arith, acks→count id l)

count-told : (f : Message → Event) (r : Res (Message × Bool)) → count_acks (told f r) ≡ 0
unfolding told
count-told f (ok (m, true)) = refl
count-told f (ok (m, false)) = refl
count-told f (err x) = refl

pub count-announce : (p : Text) (m : Option Message) (d : Bool) → count_acks (announce p m d) ≡ 0
unfolding announce
count-announce p (some m) true = refl
count-announce p (some m) false = refl
count-announce p none d = refl

pub acks-announce : (id p : Text) (m : Option Message) (d : Bool) → acks id (announce p m d) ≡ false
unfolding announce
acks-announce id p (some m) true = refl
acks-announce id p (some m) false = refl
acks-announce id p none d = refl

module _ ⦃bolt : Bolt⦄ where
  count-file_begun :
      (t : Turn) (e : Envelope) (r : Session × List Envelope) (l : Link)
      → All (λ x. is_ack (send x) ≡ false) r.1
      → count_acks (file_begun t e r l).0 ≡ 0
  unfolding file_begun
  count-file_begun t e (s, []) l h = refl
  count-file_begun t e (s, b ∷ bs) l h = ground arith

  count-on_header : (t : Turn) (e : Envelope) (l : Link) → count_acks (on_header t e l).0 ≡ 0
  unfolding on_header on_file
  count-on_header t e l = elim (Bool-cases l.session.resumes) [
    | inl h ↦ count-file_begun t e (on_file t.now e l.session) l (ground arith)
    | inr h ↦ count-file_begun t e (on_file t.now e l.session) l (ground arith)
  ]

  module _ ⦃casing : Casing⦄ ⦃a : Aead⦄ where
    count-room_msg : (t : Turn) (e : Envelope) (l : Link) → count_acks (on_room_msg t e l).0 ≡ 0
    unfolding on_room_msg handle_room_msg ack_unless
    count-room_msg t e l = ground arith

    count-on_react : (t : Turn) (e : Envelope) (l : Link) → count_acks (on_react t e l).0 ≡ 0
    unfolding on_react
    count-on_react t e l = ground arith

    -- Only a chat message is acknowledged, and once.
    pub count-acked :
        (t : Turn) (e : Envelope) (r : Res (Option Message × Bool)) (l : Link)
        → count_acks (acked t e r l).0 ≤ 1
    unfolding acked
    count-acked t e (err x) l = ground arith
    count-acked t e (ok (m, d)) l = ground (arith, count-announce l.session.peer m d)

    module _ ⦃sha : Sha256⦄ where
      abbrev pub is_msg : MsgType → Bool
      is_msg MsgType.msg = true
      is_msg _ = false

      abbrev pub SameRate : Link → Link → Type 0
      SameRate l m = (m.rate_start ≡ l.rate_start) × (m.msg_count ≡ l.msg_count)

      rate-deleted : (id : Text) (l : Link) → SameRate l (deleted id l)
      unfolding deleted with_store
      rate-deleted id l = ground arith

      rate-on_header : (t : Turn) (e : Envelope) (l : Link) → SameRate l (on_header t e l).1
      unfolding on_header file_begun on_file with_session closed
      rate-on_header t e l = ground arith

      pub dispatch-other :
          (ty : MsgType) (t : Turn) (e : Envelope) (l : Link)
          → is_msg ty ≡ false
          → (count_acks (dispatch ty t e l).0 ≡ 0) × (SameRate l (dispatch ty t e l).1)
      unfolding dispatch on_ack on_del with_store with_session
      dispatch-other MsgType.msg t e l h = absurd (ground arith)
      dispatch-other MsgType.ack t e l h = (count-told _ _, (refl, refl))
      dispatch-other MsgType.ping t e l h = (refl, (refl, refl))
      dispatch-other MsgType.react t e l h = (count-on_react t e l, unfold on_react in ground arith)
      dispatch-other MsgType.del t e l h = (refl, rate-deleted e.target l)
      dispatch-other MsgType.delall t e l h = (refl, rate-deleted e.target l)
      dispatch-other MsgType.typing t e l h = (refl, (refl, refl))
      dispatch-other MsgType.read t e l h = (refl, (refl, refl))
      dispatch-other MsgType.file t e l h = (count-on_header t e l, rate-on_header t e l)
      dispatch-other MsgType.chunk t e l h = (refl, (refl, refl))
      dispatch-other MsgType.fileack t e l h = (refl, unfold deliver_file_ack in (refl, refl))
      dispatch-other MsgType.roommsg t e l h =
          (count-room_msg t e l, unfold on_room_msg in (refl, refl))
      dispatch-other MsgType.roomack t e l h = (refl, (refl, refl))
      dispatch-other MsgType.roomevent t e l h = (refl, (refl, refl))
      dispatch-other (MsgType.unknown x) t e l h = (refl, (refl, refl))

      is_msg→eq : (ty : MsgType) → is_msg ty ≡ true → ty ≡ MsgType.msg
      is_msg→eq MsgType.msg h = refl
      is_msg→eq MsgType.ack h = absurd (ground arith)
      is_msg→eq MsgType.ping h = absurd (ground arith)
      is_msg→eq MsgType.react h = absurd (ground arith)
      is_msg→eq MsgType.del h = absurd (ground arith)
      is_msg→eq MsgType.delall h = absurd (ground arith)
      is_msg→eq MsgType.typing h = absurd (ground arith)
      is_msg→eq MsgType.read h = absurd (ground arith)
      is_msg→eq MsgType.file h = absurd (ground arith)
      is_msg→eq MsgType.chunk h = absurd (ground arith)
      is_msg→eq MsgType.fileack h = absurd (ground arith)
      is_msg→eq MsgType.roommsg h = absurd (ground arith)
      is_msg→eq MsgType.roomack h = absurd (ground arith)
      is_msg→eq MsgType.roomevent h = absurd (ground arith)
      is_msg→eq (MsgType.unknown x) h = absurd (ground arith)

      pub dispatch-is_msg :
          (ty : MsgType) (t : Turn) (e : Envelope) (l : Link)
          → is_msg ty ≡ true
          → dispatch ty t e l ≡ on_msg t e l
      unfolding dispatch
      dispatch-is_msg ty t e l h = rw (is_msg→eq ty h) refl
