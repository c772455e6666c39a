-- ===== src/Node/RoomPosts.antt =====
-- What the user says in a room: CreateRoom, SendRoomMessage, SendRoomReaction and flushRoomMember of
-- internal/node/rooms.go. `reaches` says to which names there is a session that speaks rooms, and
-- `writes` which of them take what is written. Backoffs and attempts are in nanoseconds, in int64;
-- the time of a message is in milliseconds. Events and log lines are left out.
pub mod Waiting
pub mod Backoff
pub mod Mail
use chirp.Prelude.{
  ℕ, suc, ◌-◌, Bool, true, false, ◌&&◌, ◌||◌, not, List, [], ◌∷◌, ◌++◌, Text, text_eq, Option, none,
  some, Result, ok, err, ◌>>=◌, ◌>>◌, guard, wrap, ltb, leb, length, if◌then◌else◌,
}
use chirp.Prelude.Int.{ℤ, pos, ltb_ℤ, minus}
use chirp.Crypto.Aead.{Aead}
use chirp.Proto.Envelope.{Envelope, MsgType, create, max_body, is_empty}
use chirp.Store.Bolt.{Bolt}
use chirp.Store.Casing.{Casing}
use chirp.Store.Rows.{Room, joined, RoomMessage, dir_out, Status, Db, Store}
use chirp.Store.Errors.{StoreError, Res}
use chirp.Store.Peers.{get_peer}
use chirp.Store.Rooms.{
  max_room_members, is_pending, get_room, create_room, next_sender_seq, add_room_message,
}
use chirp.Store.Rooms.Reactions.{toggle_room_reaction}
use chirp.Store.Rooms.Outbox.{room_pending, room_record_attempt, add_room_member_to_outbox}
use chirp.Store.Reads.{room_messages}
use chirp.Node.Members.{is_member, dedupe_members}
use chirp.Node.OwnRooms.{Sent, without, send_all, room_event, is_pinned}
use chirp.Node.Transfer.{bare}
use chirp.Node.Dialing.{shift}
use chirp.Node.Outbox.{is_valid}

pub data PostError : Type 0 where
  bad_body not_member room_pending_error name_required no_members too_many_members : PostError
  not_pinned emoji_required : PostError
  store : StoreError → PostError

pub record Timing : Type 0 where
  pub now : ℕ
  pub base : ℕ
  pub max : ℕ

-- RetryBase * (1 << uint(Attempts-1)), no more than RetryMax.
unfoldable pub room_backoff : ℕ → ℕ → ℕ → ℤ
room_backoff attempts base max =
    let d = shift base (attempts - 1) in if ltb_ℤ (pos max) d then pos max else d

unfoldable pub room_due : Timing → RoomMessage → Bool
room_due t m =
    not (ltb 0 m.attempts && ltb_ℤ (minus t.now m.last_try) (room_backoff m.attempts t.base t.max))

abbrev pub room_envelope : Text → RoomMessage → Envelope
room_envelope room m = record (bare MsgType.roommsg) {
  id = m.id;
  room = room;
  ts = m.ts;
  body = m.body;
  seq = m.sender_seq;
}

abbrev pub own_post : Text → Text → Text → Text → ℤ → ℕ → RoomMessage
own_post id room me body now seq = record {
  id = id;
  room = room;
  sender = me;
  dir = dir_out;
  body = body;
  ts = now;
  status = Status.queued;
  attempts = 0;
  last_try = 0;
  seq = 0;
  reply_to = [];
  sender_seq = seq;
  reactions = [];
}

module _ ⦃bolt : Bolt⦄ where
  -- The first message that cannot be sent ends the turn, not the session.
  unfoldable pub flush_room_msgs :
      Timing → (Text → Bool) → Text → Text → List RoomMessage → Store → Sent × Store
  flush_room_msgs t writes member room [] s = ([], s)
  flush_room_msgs t writes member room (m ∷ l) s =
      let u = room_record_attempt m.id t.now s in
      let e = room_envelope room m in
      let kept = flush_room_msgs t writes member room l s in
      let (out, v) = flush_room_msgs t writes member room l u in
      if not (room_due t m)
      then kept
      else if is_valid e && writes member
      then ((member, e) ∷ out, v)
      else ([], u)

  module _ ⦃casing : Casing⦄ ⦃a : Aead⦄ where
    unfoldable pub flush_pending :
        Timing → (Text → Bool) → Text → Text → Res (List RoomMessage) → Store → Sent × Store
    flush_pending t writes member room (err e) s = ([], s)
    flush_pending t writes member room (ok l) s = flush_room_msgs t writes member room l s

    unfoldable pub flush_room_member :
        Timing → (Text → Bool) → (Text → Bool) → Text → Text → Store → Sent × Store
    unfolding flush_pending
    flush_room_member t reaches writes member room s =
        if reaches member
        then flush_pending t writes member room (room_pending room member s) s
        else ([], s)

    -- The loops over the members but ourselves.
    unfoldable pub queue_members : Text → Text → List Text → Store → Store
    queue_members room id [] s = s
    queue_members room id (m ∷ l) s =
        queue_members room id l (add_room_member_to_outbox room m id s)

    unfoldable pub flush_members :
        Timing → (Text → Bool) → (Text → Bool) → Text → List Text → Store → Sent × Store
    flush_members t reaches writes room [] s = ([], s)
    flush_members t reaches writes room (m ∷ l) s =
        let (out, u) = flush_room_member t reaches writes m room s in
        let (more, v) = flush_members t reaches writes room l u in (out ++ more, v)

    unfoldable pub may_post : Text → Text → Store → Result PostError Room
    may_post me room s = do
      r ← wrap store (get_room room s)
      guard (is_member r.members me) not_member
      guard (not (is_pending r)) room_pending_error
      ok r

    -- A stored message waits for each member, and is tried with each at once.
    unfoldable pub spread :
        Timing
        → (Text → Bool)
        → (Text → Bool)
        → Text
        → Text
        → List Text
        → Res (Option RoomMessage × Bool)
        → Store
        → Result PostError Sent × Store
    spread t reaches writes room id members (err e) s = (err (store e), s)
    spread t reaches writes room id members (ok (m, true)) s = (ok [], s)
    spread t reaches writes room id members (ok (m, false)) s =
        let (out, u) =
          flush_members t reaches writes room members (queue_members room id members s) in
        (ok out, u)

    -- The number is drawn before the message is stored, and stays drawn.
    unfoldable pub post :
        Timing
        → (Text → Bool)
        → (Text → Bool)
        → Text
        → Text
        → ℤ
        → Text
        → Text
        → Text
        → Room
        → Store
        → Result PostError Sent × Store
    unfolding spread
    post t reaches writes nonce id now me room body r s =
        let (seq, db) = next_sender_seq room me s.db in
        let (res, u) =
          add_room_message nonce (own_post id room me body now seq) (record s { db = db }) in
        spread t reaches writes room id (without me r.members) res u

    unfoldable pub send_room_message :
        Timing
        → (Text → Bool)
        → (Text → Bool)
        → Text
        → Text
        → ℤ
        → Text
        → Text
        → Text
        → Store
        → Result PostError Sent × Store
    unfolding post
    send_room_message t reaches writes nonce id now me room body s =
        if is_empty body || ltb max_body (length body)
        then (err bad_body, s)
        else elim (may_post me room s) [
          | err e ↦ (err e, s)
          | ok r ↦ post t reaches writes nonce id now me room body r s
        ]

    reaction_sent : (Text → Bool) → List Text → Text → Text → Text → Sent
    reaction_sent reaches members room id emoji =
        send_all reaches members
          (record (bare MsgType.react) { room = room; target = id; emoji = emoji })

    toggled_for : Sent → Res (RoomMessage × Bool) → Store → Result PostError Sent × Store
    toggled_for out (err e) s = (err (store e), s)
    toggled_for out (ok r) s = (ok out, s)

    unfoldable pub send_room_reaction :
        (Text → Bool) → Text → Text → Text → Text → Store → Result PostError Sent × Store
    unfolding reaction_sent toggled_for
    send_room_reaction reaches me room id emoji s =
        if is_empty emoji then (err emoji_required, s) else elim (may_post me room s) [
          | err e ↦ (err e, s)
          | ok r ↦
              let (res, u) = toggle_room_reaction room id me emoji s in
              toggled_for (reaction_sent reaches (without me r.members) room id emoji) res u
        ]

    unfoldable pub all_pinned : List Text → Store → Bool
    all_pinned [] s = true
    all_pinned (m ∷ l) s = is_pinned (get_peer s m) && all_pinned l s

    abbrev pub new_room : Text → Text → Text → ℤ → List Text → Room
    new_room id me name now members = record {
      id = id;
      name = name;
      members = members;
      created_by = me;
      created_at = now;
      state = joined;
    }

    unfoldable pub create_own_room :
        (Text → Bool)
        → Text
        → Text
        → ℤ
        → Text
        → Text
        → List Text
        → Store
        → Result PostError (Sent × Store)
    create_own_room reaches nonce id now me name names s = do
      guard (not (is_empty name)) name_required
      guard (ltb 0 (length names)) no_members
      guard (leb (length names) (max_room_members - 1)) too_many_members
      guard (all_pinned names s) not_pinned
      let members = dedupe_members (me ∷ names)
      t ← wrap store (create_room nonce (new_room id me name now members) s)
      ok (send_all reaches (without me members) (room_event id now create me name members), t)
