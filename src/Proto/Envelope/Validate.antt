-- ===== src/Proto/Envelope/Validate.antt =====
-- What Envelope.validate lets through, said field by field.
use chirp.Prelude.{ℕ, ◌≤◌, ◌<◌, ◌≡◌, ◌⊎◌, true, [], Text, length}
use chirp.Prelude.Int.{ℤ, pos}
use chirp.Bytes.Utf8.{valid_string, rune_count}
use chirp.Bytes.Hex.{decode_string}
use chirp.Proto.Envelope.{
  MsgType, msg, ack, ping, react, del, delall, typing, read, file, fileack, roommsg, roomack,
  roomevent, EventKind, Envelope, is_some,
}

-- 32 hexadecimal digits.
abbrev pub IsId : Text → Type 0
IsId s = (length s ≡ 32) × (is_some (decode_string s) ≡ true)

-- A text of 1 to 4096 bytes of UTF-8 that quotes nothing or a message id.
abbrev pub IsBody : Envelope → Type 0
IsBody e =
    (0 < length e.body)
    × (length e.body ≤ 4096)
    × (valid_string e.body ≡ true)
    × ((e.reply_to ≡ []) ⊎ IsId e.reply_to)

-- Not negative and at most 100 MB.
abbrev pub InFile : ℤ → Type 0
InFile z = (n : ℕ) × (z ≡ pos n) × (n ≤ 104857600)

-- One of the five changes of a room.
abbrev pub IsEvent : EventKind → Type 0
IsEvent k =
    (k ≡ EventKind.create)
    ⊎ (k ≡ EventKind.join)
    ⊎ (k ≡ EventKind.leave)
    ⊎ (k ≡ EventKind.remove)
    ⊎ (k ≡ EventKind.rename)

-- What each type of envelope carries.
abbrev pub Shape : MsgType → Envelope → Type 0
Shape msg e = IsId e.id × IsBody e
Shape ack e = IsId e.id × (e.body ≡ [])
Shape ping e = (e.id ≡ []) × (e.body ≡ [])
Shape react e =
    IsId e.target
    × (0 < length e.emoji)
    × (rune_count e.emoji ≤ 32)
    × (valid_string e.emoji ≡ true)
    × ((e.room ≡ []) ⊎ IsId e.room)
Shape del e = IsId e.target
Shape delall e = IsId e.target
Shape typing e = Unit {0}
Shape read e = IsId e.target
Shape file e =
    IsId e.id
    × (0 < length e.src)
    × ((n : ℕ) × (e.size ≡ pos n) × (0 < n) × (n ≤ 104857600))
    × (length e.hash ≡ 64)
    × (is_some (decode_string e.hash) ≡ true)
Shape MsgType.chunk e =
    IsId e.id × InFile e.offset × (0 < length e.chunk) × (length e.chunk ≤ 33792)
Shape fileack e = IsId e.id × InFile e.offset × (e.chunk ≡ []) × (e.body ≡ [])
Shape roommsg e = IsId e.id × IsId e.room × IsBody e
Shape roomack e = IsId e.id × IsId e.room
Shape roomevent e = IsId e.room × IsEvent e.room_event × (0 < length e.room_actor)
Shape (MsgType.unknown t) e = ⊥

abbrev pub WellFormed : Envelope → Type 0
WellFormed e = Shape e.t e × ((e.seq ≡ 0) ⊎ (e.t ≡ roommsg))
