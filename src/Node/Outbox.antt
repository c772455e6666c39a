-- ===== src/Node/Outbox.antt =====
-- Sending: SendReply, flush, SendFile, flushFile and retentionLoop of internal/node/node.go. Send
-- encodes an envelope, which fails if it is not valid, and writes it, which the connection may
-- refuse. Times are nanoseconds; `random` is the draw of the jitter for a message. Events are left out.
pub mod Forced
pub mod Poison
pub mod Mail
pub mod Queueing
use chirp.Prelude.{
  ℕ, zero, suc, ◌+◌, ◌-◌, ◌*◌, ◌/◌, ◌≡◌, Bool, true, false, ◌&&◌, ◌||◌, not, List, [], ◌∷◌, ◌++◌,
  Text, text_eq, Option, none, some, Result, ok, err, ◌>>=◌, ◌>>◌, guard, wrap, ltb, leb, ◌==◌,
  length, if◌then◌else◌,
}
use chirp.Prelude.Int.{ℤ, pos, ltb_ℤ, minus}
use chirp.Bytes.Utf8.{valid_string}
use chirp.Crypto.Aead.{Aead}
use chirp.Identity.Fingerprint.{Sha256}
use chirp.Proto.Envelope.{
  Envelope, MsgType, Invalid, max_body, max_file_size, is_empty, validate, is_some,
}
use chirp.Store.Bolt.{Bolt}
use chirp.Store.Casing.{Casing}
use chirp.Store.Rows.{Peer, Message, dir_out, Status, File, FileStatus, queued, sending, Db, Store}
use chirp.Store.Errors.{StoreError, not_found, Res}
use chirp.Store.Peers.{get_peer}
use chirp.Store.Messages.{add_message, record_attempt, pending_msgs, prune}
use chirp.Store.Files.{Vault, find_file, file_blob, is_status, sha_hex}
use chirp.Store.Files.Outgoing.{add_outbound_file, mark_file_sending, mark_file_sent}
use chirp.Store.Meta.{Settings}
use chirp.Node.Transfer.{bare, chunks, chunk_envelopes, header, start_from}
use chirp.Node.Dialing.{jittered_backoff}

pub data SendError : Type 0 where
  bad_body unknown_peer key_changed size_out_of_range : SendError
  store : StoreError → SendError

-- errors.Is(err, store.ErrNotFound)
abbrev pub peer_error : StoreError → SendError
peer_error not_found = unknown_peer
peer_error e = store e

abbrev pub is_valid : Envelope → Bool
is_valid e = elim (validate e) [ ok u ↦ true | err x ↦ false ]

-- What decides whether and when a flush sends.
pub record Timing : Type 0 where
  pub force : Bool
  pub now : ℕ
  pub base : ℕ
  pub max : ℕ
  pub random : Text → ℕ
  pub writes : Bool

-- UnixMilli of the time.
abbrev pub msg_envelope : Message → Envelope
msg_envelope m = record (bare MsgType.msg) {
  id = m.id;
  ts = pos (m.ts / 1000000);
  body = m.body;
  reply_to = m.reply_to;
}

-- A message that has been tried waits for its backoff, unless the flush is forced.
unfoldable pub waits : Timing → Message → Bool
waits t m =
    not t.force
    && ltb 0 m.attempts
    && ltb_ℤ (minus t.now m.last_try)
        (pos (jittered_backoff (t.random m.id) m.attempts t.base t.max))

-- The row that SendReply stores.
abbrev pub outbound_message : Text → Text → ℕ → Text → Text → Message
outbound_message id peer now body reply_to = record {
  id = id;
  peer = peer;
  dir = dir_out;
  body = body;
  ts = now;
  status = Status.queued;
  attempts = 0;
  last_try = 0;
  seq = 0;
  reply_to = reply_to;
}

abbrev pub good_body : Text → Bool
good_body body = not (is_empty body) && leb (length body) max_body && valid_string body

-- What a flush has written, the store after it, and whether the session is still up.
pub record Flushed ⦃bolt : Bolt⦄ : Type 0 where
  pub sent : List Envelope
  pub store : Store
  pub up : Bool

module _ ⦃bolt : Bolt⦄ where
  unfoldable pub and_sent : Envelope → Flushed → Flushed
  and_sent e f = record f { sent = e ∷ f.sent }

  -- The peer's name as it is pinned; nothing goes to a peer whose key has changed.
  known_peer : Res Peer → Result SendError Text
  known_peer (err e) = err (peer_error e)
  known_peer (ok p) = elim p.pending_key [ none ↦ ok p.name | some k ↦ err key_changed ]

  module _ ⦃casing : Casing⦄ ⦃a : Aead⦄ where
    unfoldable pub recipient : Text → Store → Result SendError Text
    unfolding known_peer
    recipient peer s = known_peer (get_peer s peer)

    unfoldable pub send_reply :
        Text
        → Text
        → ℕ
        → Text
        → Text
        → Text
        → Store
        → Result SendError (Option Message × Bool) × Store
    send_reply nonce id now peer body reply_to s =
        if not (good_body body) then (err bad_body, s) else elim (recipient peer s) [
          | err e ↦ (err e, s)
          | ok name ↦
              let (r, t) = add_message nonce (outbound_message id name now body reply_to) s in
              (wrap store r, t)
        ]

    -- A message whose attempt cannot be recorded is passed over; the first that cannot be sent ends
    -- the session.
    unfoldable pub flush_msgs : Timing → List Message → Store → Flushed
    flush_msgs t [] s = record { sent = []; store = s; up = true }
    flush_msgs t (m ∷ l) s =
        let (r, u) = record_attempt m.id t.now s in
        let kept = flush_msgs t l s in
        let more = flush_msgs t l u in
        if waits t m then kept else elim r [
          | err e ↦ more
          | ok n ↦
              if is_valid (msg_envelope m) && t.writes
              then and_sent (msg_envelope m) more
              else record { sent = []; store = u; up = false }
        ]

    -- Over a link that is up.
    unfoldable pub flush : Timing → Text → Store → Flushed
    flush t peer s = elim (pending_msgs peer s) [
      | err e ↦ record { sent = []; store = s; up = true }
      | ok l ↦ flush_msgs t l s
    ]

    -- One turn of retentionLoop: `cutoff` is the time that many days ago, by AddDate.
    unfoldable pub retain : (ℤ → ℕ) → Settings → Db → Db
    retain cutoff st db = elim st.retention_days [
      | pos zero ↦ db
      | _ ↦ prune (cutoff st.retention_days) db
    ]

    module _ ⦃sha : Sha256⦄ where
      unfoldable pub send_file :
          Text → Text → ℕ → Text → Text → Text → Vault → Result SendError Vault
      send_file nonce id now peer name data' v = do
        to ← recipient peer v.store
        guard (not (length data' == 0 || ltb max_file_size (length data'))) size_out_of_range
        wrap store (add_outbound_file nonce id to name (sha_hex data') data' now v)

-- How many more envelopes the connection takes, those it took, and whether it took all.
unfoldable pub write_all : ℕ → List Envelope → List Envelope × Bool
write_all n [] = ([], true)
write_all zero (e ∷ l) = ([], false)
write_all (suc n) (e ∷ l) =
    let (out, whole) = write_all n l in if is_valid e then (e ∷ out, whole) else ([], false)

module _ ⦃bolt : Bolt⦄ where
  -- What has been sent, the files, and whether the session is still up.
  pub record FileFlush : Type 0 where
    pub sent : List Envelope
    pub vault : Vault
    pub up : Bool

  -- The offset the receiver answered, or none after ten seconds of silence.
  chunks_out : ℕ → Text → Text → Envelope → Option ℤ → Vault → FileFlush
  chunks_out n id src head none v = record { sent = head ∷ []; vault = v; up = true }
  chunks_out n id src head (some off) v =
      let out = chunk_envelopes id (chunks (length src) src (start_from off (length src))) in
      let (took, whole) = write_all n out in
      record { sent = head ∷ took; vault = if whole then mark_file_sent id v else v; up = whole }

  begun : Vault → Res Vault → Vault
  begun v (ok w) = w
  begun v (err e) = v

  unfoldable pub send_blob : ℕ → Text → File → Option ℤ → Text → Vault → FileFlush
  unfolding begun chunks_out
  send_blob zero id f answer src v = record {
    sent = [];
    vault = begun v (mark_file_sending id v);
    up = false;
  }
  send_blob (suc n) id f answer src v =
      let head = header id f.name f.hash f.size in
      let w = begun v (mark_file_sending id v) in
      if is_valid head
      then chunks_out n id src head answer w
      else record { sent = []; vault = w; up = false }

  module _ ⦃a : Aead⦄ where
    -- A peer that does not speak resume is sent the whole file, as from the answer 0. The row's
    -- size is that of its bytes, as AddOutboundFile writes both.
    unfoldable pub flush_file : ℕ → Text → Bool → Option ℤ → Vault → FileFlush
    flush_file n id resumes answer v =
        let idle : FileFlush = record { sent = []; vault = v; up = true } in
        elim (find_file v id) [
          | none ↦ idle
          | some f ↦ elim (file_blob id v) [
            | err e ↦ idle
            | ok src ↦
                if is_status f.status queued || is_status f.status sending
                then send_blob n id f (if resumes then answer else some (pos 0)) src v
                else idle
          ]
        ]
