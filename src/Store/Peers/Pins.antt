-- ===== src/Store/Peers/Pins.antt =====
-- Trust on first use: which operations can change the key that is pinned under a name.
use chirp.Prelude.{
  ℕ, ◌≡◌, refl, ap, text_eq_refl, Bool-cases, text_eq→eq, Bool, true, Text, text_eq, text_eq_iff,
  none, some, ok, arith, if◌then◌else◌, Option-cases, Result-cases, inl, inr,
}
use chirp.Crypto.Aead.{Aead}
use chirp.Identity.Fingerprint.{Sha256}
use chirp.Store.Bolt.{Bolt}
use chirp.Store.Casing.{Casing}
use chirp.Store.Rows.{Peer, Db, Store, Keys}
use chirp.Store.Seals.{encrypt, decrypt}
use chirp.Store.Peers.{peer_key, find_peer, put_peer, set_verified, observe_row, observe}

module _ ⦃bolt : Bolt⦄ ⦃casing : Casing⦄ where
  -- Every row stands under the key of its own name.
  pub record Filed (db : Db) : Type 0 where
    pub at_key : (k : Text) (p : Peer) → bolt.get db.peers k ≡ some p → peer_key p.name ≡ k

  -- What every name shows after one row is written.
  pub find_peer-put_peer :
      (s : Store) (p : Peer) (n : Text)
      → find_peer (put_peer s p).db n
        ≡ (if text_eq (peer_key p.name) (peer_key n) then some p else find_peer s.db n)
  unfolding find_peer put_peer
  find_peer-put_peer s p n = bolt.get-put s.db.peers (peer_key p.name) (peer_key n) p

  pub put_peer-Filed : (s : Store) (p : Peer) → Filed s.db → Filed (put_peer s p).db
  unfolding put_peer
  put_peer-Filed s p f = record {
    at_key = λ k q h. ground (
      arith,
      bolt.get-put s.db.peers (peer_key p.name) k p,
      f.at_key k q,
      text_eq_iff (peer_key p.name) k,
    );
  }

  pub set_verified-Filed :
      (name : Text) (v : Bool) (s t : Store)
      → Filed s.db
      → set_verified name v s ≡ ok t
      → Filed t.db
  unfolding set_verified
  set_verified-Filed name v s t f h = elim (Option-cases (find_peer s.db name)) [
    | inl e ↦ ground arith
    | inr (p, e) ↦ ground (arith, put_peer-Filed s (record p { verified = v }) f)
  ]

  module _ ⦃a : Aead⦄ ⦃sha : Sha256⦄ where
    -- The two rows pin the same key under the same name, with the same verification.
    pub record SamePin (p q : Peer) : Type 0 where
      pub name : q.name ≡ p.name
      pub key : q.key ≡ p.key
      pub fp : q.fp ≡ p.fp
      pub first_seen : q.first_seen ≡ p.first_seen
      pub verified : q.verified ≡ p.verified

    SamePin-refl : (p : Peer) → SamePin p p
    SamePin-refl p = record {
      name = refl;
      key = refl;
      fp = refl;
      first_seen = refl;
      verified = refl;
    }

    -- The row that Observe writes for a pinned name keeps the pin.
    pub observe_row-SamePin :
        (keys : Keys) (name key enc_key : Text) (now : ℕ) (p q : Peer) (m : Bool)
        → observe_row keys name key enc_key now (some p) ≡ ok (q, m)
        → SamePin p q
    unfolding observe_row
    observe_row-SamePin keys name key enc_key now p q m h =
        elim (Result-cases (decrypt keys p.key)) [
          | inl (plain, e) ↦ ground (arith, SamePin-refl p)
          | inr (x, e) ↦ ground arith
        ]

    pub observe_row-name :
        (keys : Keys) (name key enc_key : Text) (now : ℕ) (q : Peer) (m : Bool)
        → observe_row keys name key enc_key now none ≡ ok (q, m)
        → q.name ≡ name
    unfolding observe_row
    observe_row-name keys name key enc_key now q m h = ground arith

    -- A successful Observe is one row written at the name's key.
    pub observe-row :
        (nonce name key : Text) (now : ℕ) (s t : Store) (q : Peer) (m : Bool)
        → observe nonce name key now s ≡ ok ((q, m), t)
        → (t ≡ put_peer s q)
          × ((enc_key : Text) × (observe_row s.keys name key enc_key now (find_peer s.db name)
                ≡ ok (q, m)))
    unfolding observe
    observe-row nonce name key now s t q m h = elim (Result-cases (encrypt nonce s.keys key)) [
      | inl (c, e) ↦ elim (Result-cases (observe_row s.keys name key c now (find_peer s.db name))) [
        | inl ((p, b), f) ↦ (ground arith, (c, ground arith))
        | inr (x, f) ↦ absurd (ground arith)
      ]
      | inr (x, e) ↦ absurd (ground arith)
    ]

    pub find_peer-eq_key :
        (db : Db) (n m : Text)
        → text_eq (peer_key n) (peer_key m) ≡ true
        → find_peer db n ≡ find_peer db m
    unfolding find_peer
    find_peer-eq_key db n m h = ap (bolt.get db.peers) (text_eq→eq _ _ h)

    pub Filed-find_peer :
        (db : Db) (n : Text) (p : Peer)
        → Filed db
        → find_peer db n ≡ some p
        → peer_key p.name ≡ peer_key n
    unfolding find_peer
    Filed-find_peer db n p f h = f.at_key (peer_key n) p h

    -- Where the written row stands at the key of a pinned name, it keeps that pin.
    written-SamePin :
        (name key c : Text) (now : ℕ) (s : Store) (r : Peer) (m : Bool) (n : Text) (p : Peer)
        → Filed s.db
        → observe_row s.keys name key c now (find_peer s.db name) ≡ ok (r, m)
        → text_eq (peer_key r.name) (peer_key n) ≡ true
        → find_peer s.db n ≡ some p
        → SamePin p r
    written-SamePin name key c now s r m n p f o k e = elim (Option-cases (find_peer s.db name)) [
      | inl g ↦
          let named : r.name ≡ name = observe_row-name s.keys name key c now r m (rw g at o) in
          absurd (ground (arith, named, find_peer-eq_key s.db r.name n k))
      | inr (p', g) ↦
          let same : SamePin p' r = observe_row-SamePin s.keys name key c now p' r m (rw g at o) in
          let found : find_peer s.db r.name ≡ find_peer s.db name =
            find_peer-eq_key s.db r.name name (
              ground (
                arith,
                same.name,
                Filed-find_peer s.db name p' f g,
                text_eq_refl (peer_key name),
              )) in
          let one : p' ≡ p = ground (arith, found, find_peer-eq_key s.db r.name n k) in
          rw (← one) same
    ]

    -- Whatever key a handshake presents under whatever name, every name that was pinned keeps its
    -- pinned key, fingerprint and verification.
    pub observe-SamePin :
        (nonce name key : Text) (now : ℕ) (s t : Store) (r : Peer) (m : Bool) (n : Text) (p : Peer)
        → Filed s.db
        → observe nonce name key now s ≡ ok ((r, m), t)
        → find_peer s.db n ≡ some p
        → (q : Peer) × (find_peer t.db n ≡ some q) × SamePin p q
    observe-SamePin nonce name key now s t r m n p f h e =
        let (st, (c, o)) = observe-row nonce name key now s t r m h in
        let shown = find_peer-put_peer s r n in
        elim (Bool-cases (text_eq (peer_key r.name) (peer_key n))) [
          | inl k ↦ (r, ground (arith, shown), written-SamePin name key c now s r m n p f o k e)
          | inr k ↦ (p, ground (arith, shown), SamePin-refl p)
        ]
