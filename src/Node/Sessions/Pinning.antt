-- ===== src/Node/Sessions/Pinning.antt =====
-- What establish of internal/node/node.go lets through.
use chirp.Prelude.{
  ℕ, ◌≡◌, Bool, true, false, ◌&&◌, not, [], Text, text_eq, text_eq→eq, some, Result, ok, err, arith,
  Result-cases, inl, inr,
}
use chirp.Crypto.Aead.{Aead}
use chirp.Identity.Fingerprint.{Sha256}
use chirp.Store.Bolt.{Bolt}
use chirp.Store.Casing.{Casing}
use chirp.Store.Rows.{Peer, Store}
use chirp.Store.Seals.{encrypt, decrypt}
use chirp.Store.Peers.{find_peer, observe, observe_row}
use chirp.Node.Dialing.{fp_matches}
use chirp.Node.Sessions.{Remote, DialError, admitted, establish}

-- Whether a session came about.
abbrev pub came_up : Result DialError Peer → Bool
came_up (ok p) = true
came_up (err e) = false

module _ ⦃bolt : Bolt⦄ ⦃casing : Casing⦄ ⦃a : Aead⦄ ⦃sha : Sha256⦄ where
  observe-same_key :
      (nonce : Text) (r : Remote) (now : ℕ) (s : Store) (q : Peer)
      → find_peer s.db r.name ≡ some q
      → came_up (admitted (observe nonce r.name r.key now s) s).0 ≡ true
      → decrypt s.keys q.key ≡ ok r.key
  unfolding admitted observe observe_row
  observe-same_key nonce r now s q f h = elim (Result-cases (encrypt nonce s.keys r.key)) [
    | inr (x, e) ↦ absurd (ground arith)
    | inl (enc, e) ↦ elim (Result-cases (decrypt s.keys q.key)) [
      | inr (x, d) ↦ absurd (ground arith)
      | inl (plain, d) ↦ ground (arith, text_eq→eq plain r.key)
    ]
  ]

  -- A session with a name that is already pinned comes up only if the key of the remote side is the
  -- pinned key as it is decrypted, is not our own, and matches the fingerprint that the user gave,
  -- if any.
  pub establish-pinned :
      (nonce : Text) (now : ℕ) (mine want : Text) (r : Remote) (s : Store) (q : Peer)
      → find_peer s.db r.name ≡ some q
      → came_up (establish nonce now mine want (some r) s).0 ≡ true
      → (decrypt s.keys q.key ≡ ok r.key)
        × (text_eq r.key mine ≡ false)
        × ((not (text_eq want []) && not (fp_matches want r.key)) ≡ false)
  unfolding establish
  establish-pinned nonce now mine want r s q f h =
      ground (arith, observe-same_key nonce r now s q f)

  -- A wrong fingerprint leaves no trace in the store.
  establish-mismatch :
      (nonce : Text) (now : ℕ) (mine want : Text) (r : Remote) (s : Store)
      → text_eq want [] ≡ false
      → fp_matches want r.key ≡ false
      → ((establish nonce now mine want (some r) s).1 ≡ s)
        × (came_up (establish nonce now mine want (some r) s).0 ≡ false)
  unfolding establish
  establish-mismatch nonce now mine want r s w f = ground arith
