-- ===== src/Store/Peers.antt =====
-- Pinned peers: peerKey, getPeer, putPeer, GetPeer, Observe, SetVerified and AcceptPendingKey of
-- internal/store/store.go. A transaction that fails leaves the buckets as they were.
pub mod Pins
pub mod Trust
pub mod History
pub mod Mail
use chirp.Prelude.{
  ℕ, Bool, true, false, List, [], ◌∷◌, Text, text_eq, Option, none, some, Result, ok, err, ◌>>=◌,
  if◌then◌else◌,
}
use chirp.Crypto.Aead.{Aead}
use chirp.Identity.Fingerprint.{Sha256, fingerprint}
use chirp.Store.Bolt.{Bolt}
use chirp.Store.Casing.{Casing}
use chirp.Store.Rows.{Peer, Db, Store, Keys}
use chirp.Store.Errors.{StoreError, not_found, no_pending_key, Res}
use chirp.Store.Seals.{encrypt, decrypt}

or_not_found {ℓ} : {A : Type ℓ} → Option A → Res A
or_not_found none = err not_found
or_not_found (some a) = ok a

-- The two branches of Observe for a name that is pinned.
pub same_key : Peer → ℕ → Peer
same_key p now = record p { last_seen = now; pending_key = none; pending_at = 0 }

pub other_key : Peer → Text → ℕ → Peer
other_key p enc_key now = record p { pending_key = some enc_key; pending_at = now }

module _ ⦃sha : Sha256⦄ where
  pub first_seen : Text → Text → Text → ℕ → Peer
  first_seen name key enc_key now = record {
    name = name;
    key = enc_key;
    fp = fingerprint key;
    first_seen = now;
    last_seen = now;
    verified = false;
    pending_key = none;
    pending_at = 0;
  }

module _ ⦃a : Aead⦄ ⦃sha : Sha256⦄ where
  unfoldable pub observe_row : Keys → Text → Text → Text → ℕ → Option Peer → Res (Peer × Bool)
  unfolding first_seen same_key other_key
  observe_row keys name key enc_key now none = ok (first_seen name key enc_key now, true)
  observe_row keys name key enc_key now (some p) = do
    stored_key ← decrypt keys p.key
    ok (if text_eq stored_key key then (same_key p now, true) else (other_key p enc_key now, false))

  unfoldable pub accept_row : Keys → Peer → Option Text → Res Peer
  accept_row keys p none = err no_pending_key
  accept_row keys p (some key) = do
    plain_key ← decrypt keys key
    ok (record p {
      key = key;
      fp = fingerprint plain_key;
      pending_key = none;
      pending_at = 0;
      verified = false;
    })

module _ ⦃bolt : Bolt⦄ ⦃casing : Casing⦄ where
  unfoldable pub peer_key : Text → Text
  peer_key name = casing.to_lower (casing.trim_space name)

  unfoldable pub find_peer : Db → Text → Option Peer
  find_peer db name = bolt.get db.peers (peer_key name)

  unfoldable pub put_peer : Store → Peer → Store
  put_peer s p = record s { db = record (s.db) { peers = bolt.put s.db.peers (peer_key p.name) p } }

  unfoldable pub set_verified : Text → Bool → Store → Res Store
  unfolding or_not_found
  set_verified name v s = do
    p ← or_not_found (find_peer s.db name)
    ok (put_peer s (record p { verified = v }))

  module _ ⦃a : Aead⦄ where
    unfoldable pub get_peer : Store → Text → Res Peer
    unfolding or_not_found
    get_peer s name = do
      p ← or_not_found (find_peer s.db name)
      plain ← decrypt s.keys p.key
      ok (record p { key = plain })

    module _ ⦃sha : Sha256⦄ where
      -- The peer as it now stands, and whether its key is the pinned one.
      unfoldable pub observe : Text → Text → Text → ℕ → Store → Res ((Peer × Bool) × Store)
      observe nonce name key now s = do
        enc_key ← encrypt nonce s.keys key
        (p, matches) ← observe_row s.keys name key enc_key now (find_peer s.db name)
        ok ((p, matches), put_peer s p)

      unfoldable pub accept_pending_key : Text → Store → Res Store
      unfolding or_not_found
      accept_pending_key name s = do
        p ← or_not_found (find_peer s.db name)
        q ← accept_row s.keys p p.pending_key
        ok (put_peer s q)
