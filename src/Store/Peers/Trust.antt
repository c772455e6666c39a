-- ===== src/Store/Peers/Trust.antt =====
-- The pin of one name without its encryption, and how the operations of the store move it. The
-- trust that Peers of internal/node/views.go shows is read off the row.
use chirp.Prelude.{
  ℕ, ◌≡◌, ◌⊎◌, refl, ap, Bool, true, false, [], ◌∷◌, Text, text_eq, text_eq_refl, Option, none,
  some, ok, err, length, arith, if◌then◌else◌, Option-cases, Result-cases, Bool-cases, inl, inr,
}
use chirp.Crypto.Aead.{Aead}
use chirp.Crypto.Sealed.{is_encrypted, key_len}
use chirp.Crypto.Sealed
use chirp.Identity.Fingerprint.{Sha256, fingerprint}
use chirp.Store.Bolt.{Bolt}
use chirp.Store.Casing.{Casing}
use chirp.Store.Rows.{Peer, Store, Keys}
use chirp.Store.Seals.{encrypt, encrypt_with, decrypt}
use chirp.Store.Seals.Laws.{IsNonce, decrypt-encrypt_value}
use chirp.Store.Peers.Pins.{Filed, observe_row-name, observe_row-SamePin, Filed-find_peer}
use chirp.Store.Peers.{
  peer_key, find_peer, put_peer, first_seen, same_key, other_key, observe_row, observe, accept_row,
  accept_pending_key,
}

-- TrustUnknown is a name with no row.
pub data Trust : Type 0 where
  trust_unknown trust_new trust_verified trust_changed : Trust

-- The assignments to v.Trust in Peers: the later ones win.
unfoldable pub trust_of : Option Peer → Trust
trust_of none = trust_unknown
trust_of (some p) = elim p.pending_key [
  | some key ↦ trust_changed
  | none ↦ if p.verified then trust_verified else trust_new
]

-- A pinned key, whether the user has verified it, and a key that has since claimed the name.
pub record Pin : Type 0 where
  pub key : Text
  pub verified : Bool
  pub claim : Option Text

-- Trust on first use, as the README promises it: the pinned key never changes by itself.
abbrev pub meet : Option Pin → Text → Pin
meet none key = record { key = key; verified = false; claim = none }
meet (some p) key = record p { claim = if text_eq p.key key then none else some key }

-- Whether a session with that key is let through.
abbrev pub matches : Option Pin → Text → Bool
matches none key = true
matches (some p) key = text_eq p.key key

abbrev pub pin_trust : Pin → Trust
pin_trust p = elim p.claim [
  | some key ↦ trust_changed
  | none ↦ if p.verified then trust_verified else trust_new
]

module _ ⦃a : Aead⦄ ⦃sha : Sha256⦄ where
  abbrev pub ShowsClaim : Keys → Option Text → Option Text → Type 0
  ShowsClaim keys none none = Unit {0}
  ShowsClaim keys (some c) (some key) = decrypt keys c ≡ ok key
  ShowsClaim keys _ _ = ⊥

  -- A row that stands for a pin: both keys decrypt, and the fingerprint is that of the pinned key.
  pub record Shows (keys : Keys) (p : Peer) (pin : Pin) : Type 0 where
    pub key : decrypt keys p.key ≡ ok pin.key
    pub fp : p.fp ≡ fingerprint pin.key
    pub verified : p.verified ≡ pin.verified
    pub claim : ShowsClaim keys p.pending_key pin.claim

  abbrev pub ShowsRow : Keys → Option Peer → Option Pin → Type 0
  ShowsRow keys none none = Unit {0}
  ShowsRow keys (some p) (some pin) = Shows keys p pin
  ShowsRow keys _ _ = ⊥

  -- The keys that the store uses are 32 bytes.
  abbrev pub KeysFit : Keys → Type 0
  KeysFit keys = (key : Text) → keys.enc_key ≡ some key → length key ≡ key_len

  encrypt_ok :
      (nonce : Text) (keys : Keys) (text : Text)
      → KeysFit keys
      → (c : Text) × (encrypt nonce keys text ≡ ok c)
  unfolding encrypt_with
  encrypt_ok nonce keys [] k = elim (Option-cases keys.enc_key) [
    | inl e ↦ ([], ground arith)
    | inr (key, e) ↦ ([], ground arith)
  ]
  encrypt_ok nonce keys (b ∷ s) k = elim (Option-cases keys.enc_key) [
    | inl e ↦ (b ∷ s, ground arith)
    | inr (key, e) ↦ sealed key e (Result-cases (Sealed.encrypt nonce key (b ∷ s)))
  ]
    where
      sealed :
          (key : Text)
          → keys.enc_key ≡ some key
          → ((c : Text) × (Sealed.encrypt nonce key (b ∷ s) ≡ ok c))
            ⊎ ((x : Sealed.CryptoError) × (Sealed.encrypt nonce key (b ∷ s) ≡ err x))
          → (c : Text) × (encrypt_with nonce keys.enc_key (b ∷ s) ≡ ok c)
      sealed key e (inl (c, h)) = (c, ground arith)
      sealed key e (inr (x, h)) = absurd (unfold Sealed.encrypt in ground (arith, k key e))

  trust_of-Shows :
      (keys : Keys) (p : Peer) (pin : Pin) → Shows keys p pin → trust_of (some p) ≡ pin_trust pin
  unfolding trust_of
  trust_of-Shows keys p pin s = ground (arith, s.claim)

  -- The row of a name that is seen for the first time.
  first_seen-Shows :
      (nonce name key c : Text) (now : ℕ) (keys : Keys)
      → IsNonce nonce
      → is_encrypted key ≡ false
      → encrypt nonce keys key ≡ ok c
      → Shows keys (first_seen name key c now) (meet none key)
  unfolding first_seen
  first_seen-Shows nonce name key c now keys n p e = record {
    key = decrypt-encrypt_value nonce keys key c n p e;
    fp = refl;
    verified = refl;
    claim = tt;
  }

  -- The row of a pinned name: the key that was presented either is the pinned one or is a claim.
  seen_again-Shows :
      (nonce key c : Text) (now : ℕ) (keys : Keys) (p : Peer) (pin : Pin)
      → IsNonce nonce
      → is_encrypted key ≡ false
      → encrypt nonce keys key ≡ ok c
      → Shows keys p pin
      → Shows keys
          (if text_eq pin.key key then same_key p now else other_key p c now)
          (meet (some pin) key)
  unfolding same_key other_key
  seen_again-Shows nonce key c now keys p pin n i e s = elim (Bool-cases (text_eq pin.key key)) [
    | inl h ↦ rw h (record { key = s.key; fp = s.fp; verified = s.verified; claim = tt })
    | inr h ↦ rw h (record {
      key = s.key;
      fp = s.fp;
      verified = s.verified;
      claim = decrypt-encrypt_value nonce keys key c n i e;
    })
  ]

  meet-Shows :
      (nonce name key c : Text) (now : ℕ) (keys : Keys) (o : Option Pin) (r : Option Peer)
      → IsNonce nonce
      → is_encrypted key ≡ false
      → encrypt nonce keys key ≡ ok c
      → ShowsRow keys r o
      → (q : Peer) × (observe_row keys name key c now r ≡ ok (q, matches o key))
        × Shows keys q (meet o key)
  unfolding observe_row
  meet-Shows nonce name key c now keys none none n i e s =
      (first_seen name key c now, refl, first_seen-Shows nonce name key c now keys n i e)
  meet-Shows nonce name key c now keys (some pin) (some p) n i e s = (
    if text_eq pin.key key then same_key p now else other_key p c now,
    ground (arith, s.key),
    seen_again-Shows nonce key c now keys p pin n i e s,
  )
  meet-Shows nonce name key c now keys none (some p) n i e s = absurd s
  meet-Shows nonce name key c now keys (some pin) none n i e s = absurd s

module _ ⦃bolt : Bolt⦄ ⦃casing : Casing⦄ ⦃a : Aead⦄ ⦃sha : Sha256⦄ where
  -- What the store holds under a name: nothing, or a row that stands for the pin.
  abbrev pub Pinned : Store → Text → Option Pin → Type 0
  Pinned s name o = ShowsRow s.keys (find_peer s.db name) o

  written-Pinned :
      (s : Store) (q : Peer) (name : Text) (pin : Pin)
      → peer_key q.name ≡ peer_key name
      → Shows s.keys q pin
      → Pinned (put_peer s q) name (some pin)
  unfolding put_peer find_peer
  written-Pinned s q name pin k h =
      rw (bolt.get-put s.db.peers (peer_key q.name) (peer_key name) q, k, text_eq_refl) h

  observe_row-Filed :
      (s : Store) (name key c : Text) (now : ℕ) (q : Peer) (m : Bool)
      → Filed s.db
      → observe_row s.keys name key c now (find_peer s.db name) ≡ ok (q, m)
      → peer_key q.name ≡ peer_key name
  observe_row-Filed s name key c now q m f o = elim (Option-cases (find_peer s.db name)) [
    | inl g ↦ ap peer_key (observe_row-name s.keys name key c now q m (rw g at o))
    | inr (p, g) ↦ ground (
      arith,
      (observe_row-SamePin s.keys name key c now p q m (rw g at o)).name,
      Filed-find_peer s.db name p f g,
    )
  ]

  -- Observe refines trust on first use: for a row that stands for a pin, or no row, it succeeds,
  -- answers whether the presented key is the pinned one, and leaves a row that stands for the pin
  -- after the meeting, whether or not the store is encrypted. The store's key is 32 bytes or
  -- absent, the nonce is 12 bytes, the presented key does not look sealed, and every row stands at
  -- the key of its name.
  pub observe-meet :
      (nonce name key : Text) (now : ℕ) (s : Store) (o : Option Pin)
      → Filed s.db
      → KeysFit s.keys
      → IsNonce nonce
      → is_encrypted key ≡ false
      → Pinned s name o
      → (q : Peer) × (t : Store) × (observe nonce name key now s ≡ ok ((q, matches o key), t))
        × Pinned t name (some (meet o key))
  unfolding observe
  observe-meet nonce name key now s o f k n i h =
      let (c, e) = encrypt_ok nonce s.keys key k in
      let (q, w, sh) = meet-Shows nonce name key c now s.keys o (find_peer s.db name) n i e h in
      (
        q,
        put_peer s q,
        ground arith,
        written-Pinned s q name (meet o key)
            (observe_row-Filed s name key c now q (matches o key) f w) sh,
      )

  accepted_row-Shows :
      (keys : Keys) (p : Peer) (pin : Pin) (key : Text)
      → Shows keys p pin
      → pin.claim ≡ some key
      → (q : Peer) × (accept_row keys p p.pending_key ≡ ok q)
        × (q.name ≡ p.name)
        × Shows keys q (record { key = key; verified = false; claim = none })
  unfolding accept_row
  accepted_row-Shows keys p pin key s e = elim (Option-cases p.pending_key) [
    | inl g ↦ absurd (ground (arith, s.claim))
    | inr (c, g) ↦
        let opened : decrypt keys c ≡ ok key = ground (arith, s.claim) in
        (
          record p {
            key = c;
            fp = fingerprint key;
            pending_key = none;
            pending_at = 0;
            verified = false;
          },
          ground (arith, opened),
          refl,
          record { key = opened; fp = refl; verified = refl; claim = tt },
        )
  ]

  -- Where every row stands at the key of its name, and that of a name stands for a pin with a
  -- claim, AcceptPendingKey succeeds, and the row then stands for a pin of exactly the key that
  -- claimed the name, not verified, with no claim left.
  accept-claim :
      (name key : Text) (s : Store) (pin : Pin)
      → Filed s.db
      → Pinned s name (some pin)
      → pin.claim ≡ some key
      → (t : Store) × (accept_pending_key name s ≡ ok t)
        × Pinned t name (some (record { key = key; verified = false; claim = none }))
  unfolding accept_pending_key
  accept-claim name key s pin f h e = elim (Option-cases (find_peer s.db name)) [
    | inl g ↦ absurd (rw g at h)
    | inr (p, g) ↦
        let sh : Shows s.keys p pin = rw g at h in
        let (q, w, nm, sh') = accepted_row-Shows s.keys p pin key sh e in
        (
          put_peer s q,
          ground arith,
          written-Pinned s q name _ (ground (arith, Filed-find_peer s.db name p f g)) sh',
        )
  ]

  -- The trust that the user is shown for a name is that of the pin its row stands for.
  trust_of-Pinned :
      (s : Store) (name : Text) (pin : Pin)
      → Pinned s name (some pin)
      → trust_of (find_peer s.db name) ≡ pin_trust pin
  trust_of-Pinned s name pin h = elim (Option-cases (find_peer s.db name)) [
    | inl g ↦ absurd (rw g at h)
    | inr (p, g) ↦ rw g (trust_of-Shows s.keys p pin (rw g at h))
  ]
