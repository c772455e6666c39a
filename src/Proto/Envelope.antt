-- ===== src/Proto/Envelope.antt =====
-- Type, Envelope, checkID and Envelope.validate of internal/proto/proto.go.
pub mod Validate
use chirp.Prelude.{
  ℕ, ◌+◌, ◌*◌, Bool, true, false, ◌&&◌, ◌||◌, not, List, [], ◌∷◌, Text, Option, none, some, Result,
  ok, err, ◌>>◌, guard, wrap, ltb, leb, ◌==◌, length, if◌then◌else◌,
}
use chirp.Prelude.Int.{ℤ, pos, ltb_ℤ}
use chirp.Bytes.Utf8.{valid_string, rune_count}
use chirp.Bytes.Hex.{decode_string}

-- The constants of type Type; `unknown` is a string that is none of them.
pub data MsgType : Type 0 where
  msg ack ping react del delall typing read file chunk fileack roommsg roomack roomevent : MsgType
  unknown : Text → MsgType

pub data EventKind : Type 0 where
  join leave remove rename create : EventKind
  unknown : Text → EventKind

-- Numbers that Go holds as int64 are integers until they have been checked.
pub record Envelope : Type 0 where
  pub t : MsgType
  pub id : Text
  pub ts : ℤ
  pub body : Text
  pub reply_to : Text
  pub emoji : Text
  pub target : Text
  pub src : Text
  pub size : ℤ
  pub hash : Text
  pub offset : ℤ
  pub chunk : Text
  pub room : Text
  pub seq : ℕ
  pub room_event : EventKind
  pub room_name : Text
  pub room_actor : Text
  pub room_members : List Text

pub data IdError : Type 0 where
  bad_id_length id_not_hex : IdError

-- One constructor for each error that validate returns.
pub data Invalid : Type 0 where
  bad_id : IdError → Invalid
  empty_body body_too_long body_not_utf8 : Invalid
  bad_reply_to : IdError → Invalid
  ack_with_body ping_not_empty : Invalid
  bad_target : IdError → Invalid
  no_emoji emoji_too_long emoji_not_utf8 : Invalid
  bad_react_room : IdError → Invalid
  no_target no_src size_out_of_range bad_hash hash_not_hex : Invalid
  chunk_offset_out_of_range chunk_size_out_of_range : Invalid
  fileack_offset_out_of_range fileack_with_data : Invalid
  no_room : Invalid
  bad_room : IdError → Invalid
  unknown_event no_actor unknown_type unexpected_seq : Invalid

abbrev pub id_len : ℕ
id_len = 16

abbrev pub max_body : ℕ
max_body = 4096

abbrev pub max_file_size : ℕ
max_file_size = 104857600

abbrev pub chunk_size : ℕ
chunk_size = 32768

abbrev pub is_empty : Text → Bool
is_empty [] = true
is_empty (b ∷ s) = false

abbrev pub is_some {ℓ} : {A : Type ℓ} → Option A → Bool
is_some none = false
is_some (some a) = true

unfoldable pub check_id : Text → Result IdError (Unit {0})
check_id id = do
  guard (length id == id_len * 2) bad_id_length
  guard (is_some (decode_string id)) id_not_hex

-- The checks that msg and roommsg share on the text and on what it quotes.
unfoldable pub check_body : Envelope → Result Invalid (Unit {0})
check_body e = do
  guard (not (is_empty e.body)) empty_body
  guard (leb (length e.body) max_body) body_too_long
  guard (valid_string e.body) body_not_utf8
  if is_empty e.reply_to then ok tt else wrap bad_reply_to (check_id e.reply_to)

check_room : Envelope → Result Invalid (Unit {0})
check_room e = do guard (not (is_empty e.room)) no_room; wrap bad_room (check_id e.room)

abbrev offset_in_range : Envelope → Bool
offset_in_range e = not (ltb_ℤ e.offset (pos 0) || ltb_ℤ (pos max_file_size) e.offset)

check_react : Envelope → Result Invalid (Unit {0})
check_react e = do
  wrap bad_target (check_id e.target)
  guard (not (is_empty e.emoji)) no_emoji
  guard (leb (rune_count e.emoji) 32) emoji_too_long
  guard (valid_string e.emoji) emoji_not_utf8
  if is_empty e.room then ok tt else wrap bad_react_room (check_id e.room)

check_file : Envelope → Result Invalid (Unit {0})
check_file e = do
  wrap bad_id (check_id e.id)
  guard (not (is_empty e.src)) no_src
  guard (ltb_ℤ (pos 0) e.size && not (ltb_ℤ (pos max_file_size) e.size)) size_out_of_range
  guard (length e.hash == 64) bad_hash
  guard (is_some (decode_string e.hash)) hash_not_hex

check_chunk : Envelope → Result Invalid (Unit {0})
check_chunk e = do
  wrap bad_id (check_id e.id)
  guard (offset_in_range e) chunk_offset_out_of_range
  guard (not (length e.chunk == 0 || ltb (chunk_size + 1024) (length e.chunk)))
      chunk_size_out_of_range

check_fileack : Envelope → Result Invalid (Unit {0})
check_fileack e = do
  wrap bad_id (check_id e.id)
  guard (offset_in_range e) fileack_offset_out_of_range
  guard (length e.chunk == 0 && is_empty e.body) fileack_with_data

abbrev pub known_event : EventKind → Bool
known_event (EventKind.unknown k) = false
known_event _ = true

check_event : Envelope → Result Invalid (Unit {0})
unfolding check_room
check_event e = do
  check_room e
  guard (known_event e.room_event) unknown_event
  guard (not (is_empty e.room_actor)) no_actor

-- The switch of validate.
unfoldable pub check_type : MsgType → Envelope → Result Invalid (Unit {0})
unfolding check_body check_room check_react check_file check_chunk check_fileack check_event
check_type msg e = do wrap bad_id (check_id e.id); check_body e
check_type ack e = do wrap bad_id (check_id e.id); guard (is_empty e.body) ack_with_body
check_type ping e = guard (is_empty e.id && is_empty e.body) ping_not_empty
check_type react e = check_react e
check_type del e = wrap bad_target (check_id e.target)
check_type delall e = wrap bad_target (check_id e.target)
check_type typing e = ok tt
check_type read e = do
  guard (not (is_empty e.target)) no_target
  wrap bad_target (check_id e.target)
check_type file e = check_file e
check_type MsgType.chunk e = check_chunk e
check_type fileack e = check_fileack e
check_type roommsg e = do wrap bad_id (check_id e.id); check_room e; check_body e
check_type roomack e = do wrap bad_id (check_id e.id); check_room e
check_type roomevent e = check_event e
check_type (MsgType.unknown t) e = err unknown_type

abbrev pub carries_seq : MsgType → Bool
carries_seq roommsg = true
carries_seq _ = false

unfoldable pub validate : Envelope → Result Invalid (Unit {0})
unfolding check_type
validate e = do check_type e.t e; guard (e.seq == 0 || carries_seq e.t) unexpected_seq
