-- ===== src/Examples/Data.antt =====
-- The stores, messages and rooms of the examples.
use chirp.Prelude.{refl, [], ◌∷◌, Text, codes, none, some, replicate, arith}
use chirp.Prelude.Int.{pos}
use chirp.Store.Bolt.{find}
use chirp.Store.Rows.{Message, dir_out, Status, Room, joined, Db, Store, Keys}
use chirp.Store.Files.{Vault}
use chirp.Store.Seals.Laws.{IsNonce}
use chirp.Store.Messages.Indexed.{Indexed}
use chirp.Examples.Buckets.{rows_bolt}
use chirp.Examples.Setup.{ascii_casing}

abbrev pub nonce : Text
nonce = replicate 12 7

abbrev pub key : Text
key = replicate 32 5

pub nonce-IsNonce : IsNonce nonce
nonce-IsNonce = (refl, ground arith)

abbrev pub plain : Keys
plain = record { enc_key = none; id_key = none }

abbrev pub locked : Keys
locked = record { enc_key = some key; id_key = none }

abbrev pub empty_db : Db
empty_db = record {
  peers = ([], tt);
  msgs = ([], tt);
  msgs_seq = 0;
  idx = ([], tt);
  outbox = ([], tt);
  rooms = ([], tt);
  room_msgs = ([], tt);
  room_msgs_seq = 0;
  room_idx = ([], tt);
  room_outbox = ([], tt);
  room_seq = ([], tt);
  files = ([], tt);
  file_outbox = ([], tt);
}

abbrev pub new_store : Store
new_store = record { db = empty_db; keys = plain }

abbrev pub locked_store : Store
locked_store = record { db = empty_db; keys = locked }

pub empty-Indexed : Indexed empty_db
unfolding find
empty-Indexed = record {
  row_of = λ id k e. absurd (ground arith);
  at_key = λ k m e. absurd (ground arith);
  waits = λ k m e u. absurd (ground arith);
  unsent = λ id k e. absurd (ground arith);
}

abbrev pub bo : Text
bo = codes "bo"

abbrev pub ann : Text
ann = codes "ann"

-- A message to bo that waits.
abbrev pub hello : Message
hello = record {
  id = codes "m1";
  peer = bo;
  dir = dir_out;
  body = codes "hi";
  ts = 3;
  status = Status.queued;
  attempts = 0;
  last_try = 0;
  seq = 0;
  reply_to = [];
}

-- A room of ann's with bo in it.
abbrev pub club : Room
club = record {
  id = codes "r";
  name = codes "club";
  members = ann ∷ bo ∷ [];
  created_by = ann;
  created_at = pos 1;
  state = joined;
}

abbrev pub club_store : Store
club_store = record new_store { db = record empty_db { rooms = ((codes "r", club) ∷ [], tt) } }

abbrev pub empty_vault : Vault
empty_vault = record {
  store = locked_store;
  disk = record { temp = λ id. none; blob = λ id. none };
}
