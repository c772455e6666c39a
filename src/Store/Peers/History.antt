-- ===== src/Store/Peers/History.antt =====
-- Any sequence of handshakes and verifications, from any peers, some of them refused.
use chirp.Prelude.{
  ℕ, ◌≡◌, ◌∙◌, refl, Bool, true, List, [], ◌∷◌, Text, text_eq, text_eq_refl, some, ok, err, arith,
  All, Option-cases, Result-cases, Bool-cases, inl, inr,
}
use chirp.Crypto.Aead.{Aead}
use chirp.Identity.Fingerprint.{Sha256}
use chirp.Store.Bolt.{Bolt}
use chirp.Store.Casing.{Casing}
use chirp.Store.Rows.{Peer, Store}
use chirp.Store.Errors.{Res}
use chirp.Store.Peers.{peer_key, find_peer, put_peer, observe, set_verified, accept_pending_key}
use chirp.Store.Peers.Pins.{
  Filed, observe-SamePin, observe-row, find_peer-put_peer, put_peer-Filed, Filed-find_peer,
  find_peer-eq_key,
}

-- A handshake that presents a key under a name, and what the user does about a peer.
pub data PeerOp : Type 0 where
  meets : Text → Text → Text → ℕ → PeerOp
  verifies : Text → Bool → PeerOp
  accepts : Text → PeerOp

abbrev NoAccept : PeerOp → Type 0
NoAccept (accepts name) = ⊥
NoAccept _ = Unit {0}

-- The two rows pin the same key, with the same fingerprint, under the same name.
pub record SameKey (p q : Peer) : Type 0 where
  pub name : q.name ≡ p.name
  pub key : q.key ≡ p.key
  pub fp : q.fp ≡ p.fp

module _ ⦃bolt : Bolt⦄ ⦃casing : Casing⦄ ⦃a : Aead⦄ ⦃sha : Sha256⦄ where
  -- A call that fails leaves the store as it was.
  abbrev after {ℓ} : {A : Type ℓ} → Store → Res (A × Store) → Store
  after s (ok (x, t)) = t
  after s (err e) = s

  abbrev after_unit : Store → Res Store → Store
  after_unit s (ok t) = t
  after_unit s (err e) = s

  unfoldable pub step : Store → PeerOp → Store
  step s (meets nonce name key now) = after s (observe nonce name key now s)
  step s (verifies name v) = after_unit s (set_verified name v s)
  step s (accepts name) = after_unit s (accept_pending_key name s)

  run : Store → List PeerOp → Store
  run s [] = s
  run s (op ∷ ops) = run (step s op) ops

  -- `n` keeps its key from `s` to `t`, and rows stay where they belong.
  pub record Keeps (s t : Store) (n : Text) : Type 0 where
    pub filed : Filed t.db
    pub kept :
        (p : Peer)
        → find_peer s.db n ≡ some p
        → (q : Peer) × (find_peer t.db n ≡ some q) × SameKey p q

  Keeps-refl : (s : Store) (n : Text) → Filed s.db → Keeps s s n
  Keeps-refl s n f = record {
    filed = f;
    kept = λ p e. (p, e, record { name = refl; key = refl; fp = refl });
  }

  -- Where the bucket of peers is the same, so is every pin.
  pub peers-Keeps : (s t : Store) (n : Text) → t.db.peers ≡ s.db.peers → Filed s.db → Keeps s t n
  unfolding find_peer
  peers-Keeps s t n h f = record {
    filed = record { at_key = λ k p e. f.at_key k p (rw h at e) };
    kept = λ p e. (p, rw h e, record { name = refl; key = refl; fp = refl });
  }

  pub Keeps-then :
      (s t u : Store) (n : Text) → Keeps s t n → (Filed t.db → Keeps t u n) → Keeps s u n
  Keeps-then s t u n k h = record {
    filed = (h k.filed).filed;
    kept = λ p e.
        let (q, g, same) = k.kept p e in
        let (r, g', same') = (h k.filed).kept q g in
        (
          r,
          g',
          record {
            name = same'.name ∙ same.name;
            key = same'.key ∙ same.key;
            fp = same'.fp ∙ same.fp;
          },
        );
  }

  pub observe-Keeps :
      (nonce name key : Text) (now : ℕ) (s : Store) (n : Text)
      → Filed s.db
      → Keeps s (step s (meets nonce name key now)) n
  unfolding step
  observe-Keeps nonce name key now s n f = elim (Result-cases (observe nonce name key now s)) [
    | inl (((r, m), t), h) ↦ rw h (record {
      filed = rw (observe-row nonce name key now s t r m h).0 (put_peer-Filed s r f);
      kept = λ p e.
          let (q, g, same) = observe-SamePin nonce name key now s t r m n p f h e in
          (q, g, record { name = same.name; key = same.key; fp = same.fp });
    })
    | inr (x, h) ↦ rw h (Keeps-refl s n f)
  ]

  -- Two names with one key have one row.
  one_row :
      (name : Text) (s : Store) (n : Text) (p p' : Peer)
      → Filed s.db
      → find_peer s.db name ≡ some p
      → find_peer s.db n ≡ some p'
      → text_eq (peer_key p.name) (peer_key n) ≡ true
      → p ≡ p'
  one_row name s n p p' f g e k =
      let at_name : find_peer s.db p.name ≡ find_peer s.db name =
        find_peer-eq_key s.db p.name name
          (ground (arith, Filed-find_peer s.db name p f g, text_eq_refl (peer_key name))) in
      ground (arith, at_name, find_peer-eq_key s.db p.name n k)

  verified-Keeps :
      (name : Text) (v : Bool) (s : Store) (n : Text) (p : Peer)
      → Filed s.db
      → find_peer s.db name ≡ some p
      → Keeps s (put_peer s (record p { verified = v })) n
  verified-Keeps name v s n p f g = record {
    filed = put_peer-Filed s (record p { verified = v }) f;
    kept = λ p' e. elim (Bool-cases (text_eq (peer_key p.name) (peer_key n))) [
      | inl k ↦
          let shown = find_peer-put_peer s (record p { verified = v }) n in
          let same : p ≡ p' = one_row name s n p p' f g e k in
          (
            record p { verified = v },
            ground (arith, shown),
            rw (← same) (record { name = refl; key = refl; fp = refl }),
          )
      | inr k ↦ (
        p',
        ground (arith, find_peer-put_peer s (record p { verified = v }) n),
        record { name = refl; key = refl; fp = refl },
      )
    ];
  }

  pub verify-Keeps :
      (name : Text) (v : Bool) (s : Store) (n : Text)
      → Filed s.db
      → Keeps s (step s (verifies name v)) n
  unfolding step set_verified
  verify-Keeps name v s n f = elim (Option-cases (find_peer s.db name)) [
    | inl g ↦ rw g (Keeps-refl s n f)
    | inr (p, g) ↦ rw g (verified-Keeps name v s n p f g)
  ]

  step-Keeps :
      (s : Store) (op : PeerOp) (n : Text) → NoAccept op → Filed s.db → Keeps s (step s op) n
  step-Keeps s (meets nonce name key now) n o f = observe-Keeps nonce name key now s n f
  step-Keeps s (verifies name v) n o f = verify-Keeps name v s n f
  step-Keeps s (accepts name) n o f = absurd o

  run-Keeps :
      (ops : List PeerOp) (s : Store) (n : Text)
      → All NoAccept ops
      → Filed s.db
      → Keeps s (run s ops) n
  unfolding run
  run-Keeps [] s n o f = Keeps-refl s n f
  run-Keeps (op ∷ ops) s n o f =
      Keeps-then s (step s op) (run (step s op) ops) n (step-Keeps s op n o.0 f)
        (run-Keeps ops (step s op) n o.1)

  -- Over any sequence of handshakes and verifications, none of which accepts a changed key, a name
  -- that is pinned keeps its pinned key and fingerprint, if every row stands at the key of its name
  -- to begin with.
  run-SameKey :
      (ops : List PeerOp) (s : Store) (n : Text) (p : Peer)
      → All NoAccept ops
      → Filed s.db
      → find_peer s.db n ≡ some p
      → (q : Peer) × (find_peer (run s ops).db n ≡ some q) × SameKey p q
  run-SameKey ops s n p o f e = (run-Keeps ops s n o f).kept p e
