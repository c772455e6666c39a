-- ===== src/Store/Peers/Mail.antt =====
-- What internal/store/store.go does to pinned peers leaves the messages as they are.
use chirp.Prelude.{ℕ, ◌≡◌, Bool, Text, ok, arith, Option-cases, Result-cases, inl, inr}
use chirp.Crypto.Aead.{Aead}
use chirp.Identity.Fingerprint.{Sha256}
use chirp.Store.Bolt.{Bolt}
use chirp.Store.Casing.{Casing}
use chirp.Store.Rows.{Peer, Store}
use chirp.Store.Seals.{encrypt}
use chirp.Store.Messages.Mail.{SameMail}
use chirp.Store.Peers.{
  or_not_found, find_peer, put_peer, set_verified, observe_row, observe, accept_row,
  accept_pending_key,
}

module _ ⦃bolt : Bolt⦄ ⦃casing : Casing⦄ where
  pub set_verified-SameMail :
      (name : Text) (v : Bool) (s t : Store) → set_verified name v s ≡ ok t → SameMail t.db s.db
  unfolding set_verified or_not_found put_peer
  set_verified-SameMail name v s t h = elim (Option-cases (find_peer s.db name)) [
    | inl n ↦ absurd (ground arith)
    | inr (p, n) ↦ ground arith
  ]

  module _ ⦃a : Aead⦄ ⦃sha : Sha256⦄ where
    pub observe-SameMail :
        (nonce name key : Text) (now : ℕ) (s t : Store) (r : Peer × Bool)
        → observe nonce name key now s ≡ ok (r, t)
        → SameMail t.db s.db
    unfolding observe put_peer
    observe-SameMail nonce name key now s t r h = elim (Result-cases (encrypt nonce s.keys key)) [
      | inr (x, e) ↦ absurd (ground arith)
      | inl (c, e) ↦ elim (Result-cases (observe_row s.keys name key c now (find_peer s.db name))) [
        | inr (x, o) ↦ absurd (ground arith)
        | inl ((p, m), o) ↦ ground arith
      ]
    ]

    pub accept_pending_key-SameMail :
        (name : Text) (s t : Store) → accept_pending_key name s ≡ ok t → SameMail t.db s.db
    unfolding accept_pending_key or_not_found put_peer
    accept_pending_key-SameMail name s t h = elim (Option-cases (find_peer s.db name)) [
      | inl n ↦ absurd (ground arith)
      | inr (p, n) ↦ elim (Result-cases (accept_row s.keys p p.pending_key)) [
        | inr (x, e) ↦ absurd (ground arith)
        | inl (q, e) ↦ ground arith
      ]
    ]
