-- ===== src/Node/Outbox/Queueing.antt =====
-- What SendReply and SendFile of internal/node/node.go take.
use chirp.Prelude.{
  ℕ, ◌≡◌, Bool, true, false, [], Text, some, Result, ok, err, arith, Result-cases, inl, inr,
}
use chirp.Crypto.Aead.{Aead}
use chirp.Identity.Fingerprint.{Sha256}
use chirp.Proto.Envelope.{check_id, validate, check_type, check_body}
use chirp.Store.Bolt.{Bolt}
use chirp.Store.Casing.{Casing}
use chirp.Store.Rows.{Peer, Store}
use chirp.Store.Seals.{decrypt}
use chirp.Store.Peers.{find_peer, get_peer}
use chirp.Store.Files.{Vault}
use chirp.Node.Outbox.{
  SendError, is_valid, msg_envelope, outbound_message, good_body, known_peer, recipient, send_reply,
  send_file,
}

abbrev pub taken {ℓ} : {A : Type ℓ} → Result SendError A → Bool
taken (ok a) = true
taken (err e) = false

module _ ⦃bolt : Bolt⦄ ⦃casing : Casing⦄ ⦃a : Aead⦄ where
  recipient-changed :
      (peer k : Text) (p : Peer) (s : Store)
      → find_peer s.db peer ≡ some p
      → p.pending_key ≡ some k
      → taken (recipient peer s) ≡ false
  unfolding recipient known_peer get_peer
  recipient-changed peer k p s f c = elim (Result-cases (decrypt s.keys p.key)) [
    | inl (key, d) ↦ ground arith
    | inr (e, d) ↦ ground arith
  ]

  -- Nothing is stored or queued for a peer whose key has changed.
  send-changed :
      ⦃sha : Sha256⦄ (nonce id peer name body reply_to data' k : Text) (now : ℕ) (p : Peer)
      (v : Vault)
      → find_peer v.store.db peer ≡ some p
      → p.pending_key ≡ some k
      → ((send_reply nonce id now peer body reply_to v.store).1 ≡ v.store)
        × (taken (send_reply nonce id now peer body reply_to v.store).0 ≡ false)
        × (taken (send_file nonce id now peer name data' v) ≡ false)
  unfolding send_reply send_file
  send-changed nonce id peer name body reply_to data' k now p v f c =
      elim (Result-cases (recipient peer v.store)) [
        | inl (to, e) ↦ absurd (ground (arith, recipient-changed peer k p v.store f c))
        | inr (x, e) ↦ ground arith
      ]

-- A body that SendReply takes is one that Encode takes.
good_body-is_valid :
    (id peer body : Text) (now : ℕ)
    → check_id id ≡ ok tt
    → is_valid (msg_envelope (outbound_message id peer now body [])) ≡ good_body body
unfolding validate check_type check_body
good_body-is_valid id peer body now h = ground arith
