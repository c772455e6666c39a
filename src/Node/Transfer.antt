-- ===== src/Node/Transfer.antt =====
-- A file transfer over a session: the chunks that flushFile of internal/node/node.go sends, and the
-- cases TypeFile and TypeChunk of readLoop in internal/node/link.go. Events and log lines are left
-- out. The nonce is the one that CompleteFile draws.
pub mod Delivered
pub mod Termination
pub mod Mail
use chirp.Prelude.{
  ℕ, zero, suc, ◌+◌, ◌-◌, Bool, true, false, ◌&&◌, not, List, [], ◌∷◌, Text, text_eq, Option, none,
  some, Result, ok, err, ltb, leb, length, take, drop, if◌then◌else◌,
}
use chirp.Prelude.Int.{ℤ, pos, pos_part}
use chirp.Crypto.Aead.{Aead}
use chirp.Identity.Fingerprint.{Sha256}
use chirp.Proto.Envelope.{Envelope, MsgType, file, EventKind, chunk_size}
use chirp.Store.Bolt.{Bolt}
use chirp.Store.Rows.{File, Store}
use chirp.Store.Errors.{Res}
use chirp.Store.Files.{Vault, begin_receive, write_chunk, complete_file}

-- An envelope with its type and no other field.
abbrev pub bare : MsgType → Envelope
bare t = record {
  t = t;
  id = [];
  ts = pos 0;
  body = [];
  reply_to = [];
  emoji = [];
  target = [];
  src = [];
  size = pos 0;
  hash = [];
  offset = pos 0;
  chunk = [];
  room = [];
  seq = 0;
  room_event = EventKind.unknown [];
  room_name = [];
  room_actor = [];
  room_members = [];
}

-- The loop over the blob. Each turn but the last moves the offset by chunk_size.
unfoldable pub chunks : ℕ → Text → ℕ → List (ℕ × Text)
chunks zero src off = []
chunks (suc fuel) src off =
    let end = if ltb (length src) (off + chunk_size) then length src else off + chunk_size in
    let rest = chunks fuel src end in
    if ltb off (length src) then (off, take (end - off) (drop off src)) ∷ rest else []

-- Where the sender starts: an answer outside the file counts as 0.
abbrev pub start_from : ℤ → ℕ → ℕ
start_from (pos n) size = if ltb size n then 0 else n
start_from n size = 0

abbrev pub chunk_envelope : Text → ℕ → Text → Envelope
chunk_envelope id off c = record (bare MsgType.chunk) { id = id; offset = pos off; chunk = c }

-- The envelopes with the chunks.
unfoldable pub chunk_envelopes : Text → List (ℕ × Text) → List Envelope
chunk_envelopes id [] = []
chunk_envelopes id ((off, c) ∷ l) = chunk_envelope id off c ∷ chunk_envelopes id l

unfoldable pub header : Text → Text → Text → ℕ → Envelope
header id name hash size = record (bare file) { id = id; src = name; size = pos size; hash = hash }

-- What flushFile sends once the answer has come; a fuel of the file's length is enough.
pub flush_chunks : Text → Text → ℤ → List Envelope
unfolding chunk_envelopes
flush_chunks id src answer =
    chunk_envelopes id (chunks (length src) src (start_from answer (length src)))

-- rxFileID, rxFileOff and rxFileSize of the link.
pub record Rx : Type 0 where
  pub id : Text
  pub off : ℕ
  pub size : ℕ

-- The receiving side: its peer, its store, and whether the session is still up.
pub record Session ⦃bolt : Bolt⦄ : Type 0 where
  pub peer : Text
  pub resumes : Bool
  pub rx : Rx
  pub vault : Vault
  pub up : Bool

abbrev pub no_rx : Rx
no_rx = record { id = []; off = 0; size = 0 }

module _ ⦃bolt : Bolt⦄ where
  -- The offset is answered to a sender that asked for one.
  unfoldable pub on_file : ℕ → Envelope → Session → Session × List Envelope
  on_file now e s =
      let (resume, v) = begin_receive e.id s.peer e.src e.hash (pos_part e.size) now s.vault in
      (
        record s { rx = record { id = e.id; off = resume; size = pos_part e.size }; vault = v },
        if s.resumes
            then record (bare MsgType.fileack) { id = e.id; offset = pos resume } ∷ []
            else [],
      )

  module _ ⦃a : Aead⦄ ⦃sha : Sha256⦄ where
    -- CompleteFile is tried once the counter has reached the announced size, and whatever it says
    -- the link expects no more chunks.
    progressed : Text → Text → File → Session → Session
    progressed nonce id f s =
        if leb s.rx.size f.received
        then record s { rx = no_rx; vault = (complete_file nonce id s.vault).1 }
        else record s { rx = record (s.rx) { off = f.received } }

    after_write : Text → Text → Res File → Session → Session
    unfolding progressed
    after_write nonce id (err e) s = record s { up = false }
    after_write nonce id (ok f) s = progressed nonce id f s

    pub on_chunk : Text → Envelope → Session → Session
    unfolding after_write
    on_chunk nonce e s =
        let (r, v) = write_chunk e.id (pos_part e.offset) e.chunk s.vault in
        if not (text_eq e.id s.rx.id) then s else after_write nonce e.id r (record s { vault = v })

    -- A session that is down reads nothing more.
    pub on_chunks : Text → List Envelope → Session → Session
    on_chunks nonce [] s = s
    on_chunks nonce (e ∷ l) s =
        let t = on_chunks nonce l (on_chunk nonce e s) in if s.up then t else s
