-- ===== src/Examples/Sending.antt =====
-- Sessions that come about or not, the messages that wait for them, and a search.
use chirp.Store.Rooms.{next_sender_seq}
use chirp.Store.Rooms.{add_room_row}
use chirp.Store.Rooms.{add_room_message}
use chirp.Node.Members.{is_member}
use chirp.Store.Rooms.{decrypt_room}
use chirp.Store.Rooms.{get_room}
use chirp.Store.Messages.{load_by_id}
use chirp.Store.Messages.{attempt_db}
use chirp.Bytes.Utf8.{valid_string}
use chirp.Bytes.Hex.{decode_string}
use chirp.Crypto.Sealed.{is_encrypted}
use chirp.Store.Peers.{peer_key}
use chirp.Store.Peers.{observe_row}
use chirp.Store.Peers.{put_peer}
use chirp.Store.Seals.{encrypt_with}
use chirp.Store.Peers.{observe}
use chirp.Node.Sessions.{admitted}
use chirp.Prelude.{
  ◌↔◌, ◌≤◌, ◌≡◌, ◌&&◌, refl, true, false, not, [], ◌∷◌, codes, text_eq, none, some, ok, replicate,
  All, arith,
}
use chirp.Prelude.Int.{pos}
use chirp.Proto.Envelope.{validate, check_id, IdError}
use chirp.Store.Bolt.{find}
use chirp.Store.Rows.{Message, RoomMessage, Store}
use chirp.Store.Seals.{decrypt, encrypt_string, decrypt_string}
use chirp.Store.Peers.{find_peer}
use chirp.Store.Messages.{add_row, msg_key, pending_msgs, sort_by_seq, record_attempt}
use chirp.Store.Messages.Indexed.{Indexed, add_row-Indexed}
use chirp.Node.Sessions.{Remote, establish}
use chirp.Node.Sessions.Pinning.{came_up, establish-pinned}
use chirp.Node.Dialing.{fp_matches}
use chirp.Node.Outbox
use chirp.Node.Outbox.{Flushed, flush, waits, msg_envelope, is_valid}
use chirp.Node.Outbox.Poison.{flush-poisoned}
use chirp.Node.OwnRooms.{without}
use chirp.Node.RoomPosts
use chirp.Node.RoomPosts.{own_post, room_due, may_post, send_room_message}
use chirp.Node.RoomPosts.Backoff.{room_due-always}
use chirp.Node.RoomPosts.Waiting.{WaitsFor, send_room_message-WaitsFor}
use chirp.Examples.Buckets.{rows_bolt}
use chirp.Examples.Setup.{ascii_casing, tag_aead, sum_sha}
use chirp.Examples.Data.{
  nonce, key, plain, empty_db, empty-Indexed, bo, ann, hello, club, club_store,
}
use chirp.Examples.Peers.{k1, bo_row, bo_store, bo_found}

abbrev remote_bo : Remote
remote_bo = record { name = bo; key = k1 }

bo_comes_up : came_up (establish nonce 9 key [] (some remote_bo) bo_store).0 ≡ true
unfolding establish text_eq admitted observe encrypt_with put_peer observe_row find_peer find
    peer_key decrypt is_encrypted
bo_comes_up = refl

establish-pinned_example :
    (decrypt plain k1 ≡ ok k1)
    × (text_eq k1 key ≡ false)
    × ((not (text_eq [] []) && not (fp_matches [] k1)) ≡ false)
unfolding put_peer
establish-pinned_example =
    establish-pinned nonce 9 key [] remote_bo bo_store bo_row bo_found bo_comes_up

abbrev pub timing : Outbox.Timing
timing = record {
  force = true;
  now = 5;
  base = 2000000000;
  max = 30000000000;
  random = λ id. 0;
  writes = true;
}

-- A message to bo that waits, and one that answers no message.
abbrev pub note : Message
note = record hello { id = replicate 32 48 }

abbrev pub note_store : Store
note_store = record { db = (add_row note none empty_db).1; keys = plain }

pub note-Indexed : Indexed note_store.db
unfolding find
note-Indexed = add_row-Indexed note empty_db empty-Indexed (ground arith)

pub note_waits : pending_msgs bo note_store ≡ ok (record note { seq = 1 } ∷ [])
unfolding pending_msgs add_row find text_eq msg_key peer_key decrypt_string sort_by_seq
note_waits = refl

pub note_encodes : is_valid (msg_envelope (record note { seq = 1 })) ≡ true
unfolding validate check_id decode_string valid_string
note_encodes = refl

abbrev reply : Message
reply = record note { reply_to = codes "x" }

abbrev reply_store : Store
reply_store = record { db = (add_row reply none empty_db).1; keys = plain }

reply_waits : pending_msgs bo reply_store ≡ ok (record reply { seq = 1 } ∷ [])
unfolding pending_msgs add_row find text_eq msg_key peer_key decrypt_string sort_by_seq
reply_waits = refl

abbrev tried : Message
tried = record reply { seq = 1; attempts = 1; last_try = 5 }

reply_tried : (record_attempt reply.id 5 reply_store).0 ≡ ok tried
unfolding record_attempt attempt_db load_by_id find add_row text_eq msg_key peer_key decrypt_string
reply_tried = refl

flush-poisoned_example :
    ((flush timing bo reply_store).sent ≡ []) × ((flush timing bo reply_store).up ≡ false)
flush-poisoned_example =
    flush-poisoned timing bo reply_store (record reply { seq = 1 }) tried [] IdError.bad_id_length
      reply_waits refl (unfold check_id in refl) (unfold waits in refl) reply_tried

abbrev post_timing : RoomPosts.Timing
post_timing = record { now = 5; base = 2000; max = 30000 }

abbrev old_post : RoomMessage
old_post = record (own_post (codes "p1") (codes "r") ann (codes "hi") (pos 4) 1) { attempts = 70 }

room_due-always_example : (room_due post_timing old_post ≡ true) ↔ (0 ≤ 5)
room_due-always_example = room_due-always post_timing old_post (ground arith)

abbrev posted : Store
posted =
    (send_room_message post_timing (λ name. false) (λ name. false) nonce (codes "p1") (pos 4) ann
      (codes "r") (codes "hi") club_store).1

ann_belongs : may_post ann (codes "r") club_store ≡ ok club
unfolding may_post get_room find text_eq decrypt_room decrypt_string is_member
ann_belongs = refl

ann_posts :
    send_room_message post_timing
      (λ name. false)
      (λ name. false)
      nonce
      (codes "p1")
      (pos 4)
      ann
      (codes "r")
      (codes "hi")
      club_store
    ≡ (ok [], posted)
unfolding send_room_message may_post get_room find text_eq decrypt_room decrypt_string is_member
    add_room_message encrypt_string add_room_row next_sender_seq RoomPosts.flush_members without
    RoomPosts.flush_room_member
ann_posts = refl

send_room_message-WaitsFor_example :
    All (WaitsFor (codes "r") (codes "p1") posted.db.room_outbox) (without ann (ann ∷ bo ∷ []))
send_room_message-WaitsFor_example =
    send_room_message-WaitsFor post_timing (λ name. false) (λ name. false) nonce (codes "p1")
      (pos 4) ann (codes "r") (codes "hi") club club_store posted [] ann_belongs ann_posts
      (unfold find in refl)
