-- ===== src/Node/Outbox/Mail.antt =====
-- What the sending of messages and files and a new session do to the messages: establish, SendReply,
-- SendFile, flush and flushFile of internal/node/node.go.
use chirp.Prelude.{
  ◌⊎◌, ℕ, zero, suc, ◌<◌, ◌≡◌, refl, Bool, if◌then◌else◌, List, [], ◌∷◌, Text, Option, none, some,
  ok, arith, Option-cases, Result-cases, inl, inr,
}
use chirp.Prelude.Int.{ℤ, pos}
use chirp.Crypto.Aead.{Aead}
use chirp.Identity.Fingerprint.{Sha256}
use chirp.Proto.Envelope.{Envelope}
use chirp.Store.Bolt.{Bolt}
use chirp.Store.Casing.{Casing}
use chirp.Store.Rows.{Message, File, Store}
use chirp.Store.Peers.{observe}
use chirp.Store.Peers.Pins.{Filed}
use chirp.Store.Peers.History.{step, meets, Keeps, peers-Keeps, observe-Keeps}
use chirp.Store.Peers.Mail.{observe-SameMail}
use chirp.Store.Messages.{
  load_by_id, put_msg, attempt_db, record_attempt, pending_msgs, prunes, prune,
}
use chirp.Store.Messages.Indexed.{Indexed}
use chirp.Store.Messages.Beside.{add_message-peers, record_attempt-peers, delete_messages-peers}
use chirp.Store.Messages.Mail.{SameMail, Apart, Quiet}
use chirp.Store.Messages.History.{add-Next, attempt-Next, deleted-Next}
use chirp.Store.Files.{Vault, find_file, file_blob, sha_hex}
use chirp.Store.Files.Outgoing.{add_outbound_file, mark_file_sending}
use chirp.Store.Files.Mail.{add_outbound_file-Apart, mark_file_sending-Apart, mark_file_sent-Apart}
use chirp.Store.Meta.{Settings}
use chirp.Node.Transfer.{header}
use chirp.Node.Sessions.{Remote, admitted, establish}
use chirp.Node.Outbox.{
  Timing, outbound_message, and_sent, recipient, send_reply, flush_msgs, flush, retain, send_file,
  chunks_out, begun, send_blob, flush_file,
}

module _ ⦃bolt : Bolt⦄ ⦃casing : Casing⦄ ⦃a : Aead⦄ where
  pub send_reply-Quiet :
      (nonce id : Text) (now : ℕ) (peer body reply_to : Text) (s : Store)
      → Indexed s.db
      → suc s.db.msgs_seq < 18446744073709551616
      → Quiet s (send_reply nonce id now peer body reply_to s).1
  unfolding send_reply
  send_reply-Quiet nonce id now peer body reply_to s w b = elim (Result-cases (recipient peer s)) [
    | inr (x, e) ↦ ground (arith, w)
    | inl (name, e) ↦ ground (
      arith,
      w,
      add-Next nonce (outbound_message id name now body reply_to) s w b,
      add_message-peers nonce (outbound_message id name now body reply_to) s,
    )
  ]

  -- A flush draws no number and knows of no other peers.
  abbrev pub Flushes : Store → Store → Type 0
  Flushes s t = Indexed t.db × (t.db.msgs_seq ≡ s.db.msgs_seq) × (t.db.peers ≡ s.db.peers)

  attempt-seq :
      (id : Text) (now : ℕ) (s : Store) → (record_attempt id now s).1.db.msgs_seq ≡ s.db.msgs_seq
  unfolding record_attempt attempt_db put_msg
  attempt-seq id now s = elim (Result-cases (load_by_id s.db id)) [
    | inr (x, e) ↦ ground arith
    | inl ((m, k), e) ↦ ground arith
  ]

  flush_msgs-Flushes :
      (t : Timing) (l : List Message) (s : Store)
      → Indexed s.db
      → Flushes s (flush_msgs t l s).store
  unfolding flush_msgs and_sent
  flush_msgs-Flushes t [] s w = (w, refl, refl)
  flush_msgs-Flushes t (m ∷ l) s w =
      let r = record_attempt m.id t.now s in
      let next = attempt-Next m.id t.now s w in
      elim (Result-cases r.0) [
        | inr (x, e) ↦ ground (
          arith,
          attempt-seq m.id t.now s,
          record_attempt-peers m.id t.now s,
          flush_msgs-Flushes t l s w,
          flush_msgs-Flushes t l r.1 next.0,
        )
        | inl (n, e) ↦ ground (
          arith,
          attempt-seq m.id t.now s,
          record_attempt-peers m.id t.now s,
          flush_msgs-Flushes t l s w,
          flush_msgs-Flushes t l r.1 next.0,
        )
      ]

  pub flush-Flushes :
      (t : Timing) (peer : Text) (s : Store) → Indexed s.db → Flushes s (flush t peer s).store
  unfolding flush
  flush-Flushes t peer s w = elim (Result-cases (pending_msgs peer s)) [
    | inr (x, e) ↦ ground (arith, w)
    | inl (l, e) ↦ ground (arith, flush_msgs-Flushes t l s w)
  ]

  pub retain-Quiet :
      (cutoff : ℤ → ℕ) (st : Settings) (s : Store)
      → Indexed s.db
      → Quiet s (record s { db = retain cutoff st s.db })
  unfolding retain prune
  retain-Quiet cutoff st s w = ground (
    arith,
    w,
    deleted-Next (prunes (cutoff st.retention_days)) s w,
    delete_messages-peers (prunes (cutoff st.retention_days)) s.db,
  )

  module _ ⦃sha : Sha256⦄ where
    pub establish-SameMail :
        (nonce : Text) (now : ℕ) (mine want : Text) (r : Option Remote) (s : Store)
        → SameMail (establish nonce now mine want r s).1.db s.db
    unfolding establish admitted
    establish-SameMail nonce now mine want none s = (refl, refl, refl, refl)
    establish-SameMail nonce now mine want (some r) s =
        elim (Result-cases (observe nonce r.name r.key now s)) [
          | inr (x, e) ↦ ground arith
          | inl ((p, t), e) ↦ ground (arith, observe-SameMail nonce r.name r.key now s t p e)
        ]

    establish-store :
        (nonce : Text) (now : ℕ) (mine want : Text) (r : Remote) (s : Store)
        → ((establish nonce now mine want (some r) s).1 ≡ s)
          ⊎ ((establish nonce now mine want (some r) s).1 ≡ step s (meets nonce r.name r.key now))
    unfolding establish admitted step
    establish-store nonce now mine want r s =
        elim (Result-cases (observe nonce r.name r.key now s)) [
          | inr (x, e) ↦ ground arith
          | inl ((p, t), e) ↦ ground arith
        ]

    -- No handshake changes a pin.
    pub establish-Keeps :
        (nonce : Text) (now : ℕ) (mine want : Text) (r : Option Remote) (s : Store) (n : Text)
        → Filed s.db
        → Keeps s (establish nonce now mine want r s).1 n
    unfolding establish
    establish-Keeps nonce now mine want none s n f = peers-Keeps s s n refl f
    establish-Keeps nonce now mine want (some r) s n f =
        elim (establish-store nonce now mine want r s) [
          | inl e ↦ rw e (peers-Keeps s s n refl f)
          | inr e ↦ rw e (observe-Keeps nonce r.name r.key now s n f)
        ]

    pub send_file-Apart :
        (nonce id : Text) (now : ℕ) (peer name bytes : Text) (v w : Vault)
        → send_file nonce id now peer name bytes v ≡ ok w
        → Apart w.store.db v.store.db
    unfolding send_file
    send_file-Apart nonce id now peer name bytes v w h =
        elim (Result-cases (recipient peer v.store)) [
          | inr (x, e) ↦ absurd (ground arith)
          | inl (to, e) ↦
              elim (Result-cases (add_outbound_file nonce id to name (sha_hex bytes) bytes now v)) [
                | inr (x, o) ↦ absurd (ground arith)
                | inl (u, o) ↦ ground (
                  arith,
                  add_outbound_file-Apart nonce id to name (sha_hex bytes) bytes now v u o,
                )
              ]
        ]

module _ ⦃bolt : Bolt⦄ where
  begun-Apart :
      (id : Text) (v : Vault) → Apart (begun v (mark_file_sending id v)).store.db v.store.db
  unfolding begun
  begun-Apart id v = elim (Result-cases (mark_file_sending id v)) [
    | inr (x, e) ↦ ground arith
    | inl (w, e) ↦ ground (arith, mark_file_sending-Apart id v w e)
  ]

  chunks_out-Apart :
      (n : ℕ) (id src : Text) (head : Envelope) (answer : Option ℤ) (v : Vault)
      → Apart (chunks_out n id src head answer v).vault.store.db v.store.db
  unfolding chunks_out
  chunks_out-Apart n id src head none v = ((refl, refl, refl, refl), refl)
  chunks_out-Apart n id src head (some off) v = ground (arith, mark_file_sent-Apart id v)

  send_blob-Apart :
      (n : ℕ) (id : Text) (f : File) (answer : Option ℤ) (src : Text) (v : Vault)
      → Apart (send_blob n id f answer src v).vault.store.db v.store.db
  unfolding send_blob
  send_blob-Apart zero id f answer src v = begun-Apart id v
  send_blob-Apart (suc n) id f answer src v = ground (
    arith,
    begun-Apart id v,
    chunks_out-Apart n id src (header id f.name f.hash f.size) answer
        (begun v (mark_file_sending id v)),
  )

  pub flush_file-Apart :
      ⦃a : Aead⦄ (n : ℕ) (id : Text) (resumes : Bool) (answer : Option ℤ) (v : Vault)
      → Apart (flush_file n id resumes answer v).vault.store.db v.store.db
  unfolding flush_file
  flush_file-Apart n id resumes answer v = elim (Option-cases (find_file v id)) [
    | inl e ↦ ground arith
    | inr (f, e) ↦ elim (Result-cases (file_blob id v)) [
      | inr (x, o) ↦ ground arith
      | inl (src, o) ↦
          ground (arith, send_blob-Apart n id f (if resumes then answer else some (pos 0)) src v)
    ]
  ]
