-- ===== src/Node/Sessions.antt =====
-- How a session comes about and ends: establish, runSession and linkFor of internal/node/node.go.
-- The handshake is a parameter: what it says of the remote side, or nothing. A session is a number,
-- the identity of its *link.
pub mod Pinning
pub mod Newest
use chirp.Prelude.{
  ℕ, ◌≡◌, Bool, true, false, ◌&&◌, not, [], ◌∷◌, Text, text_eq, Option, none, some, Result, ok, err,
  ◌==◌, if◌then◌else◌,
}
use chirp.Crypto.Aead.{Aead}
use chirp.Identity.Fingerprint.{Sha256}
use chirp.Store.Bolt.{Bolt}
use chirp.Store.Casing.{Casing}
use chirp.Store.Rows.{Peer, Store}
use chirp.Store.Errors.{StoreError, Res}
use chirp.Store.Peers.{observe}
use chirp.Node.Dialing.{fp_matches}

-- RemoteName and RemoteKey of a session.Conn.
pub record Remote : Type 0 where
  pub name : Text
  pub key : Text

pub data DialError : Type 0 where
  handshake_failed ourselves fp_mismatch : DialError
  store : StoreError → DialError
  not_the_pin : DialError

module _ ⦃bolt : Bolt⦄ ⦃casing : Casing⦄ ⦃a : Aead⦄ ⦃sha : Sha256⦄ where
  -- A key that is not the pinned one is noted in the store and refused.
  unfoldable pub admitted : Res ((Peer × Bool) × Store) → Store → Result DialError Peer × Store
  admitted (err e) s = (err (store e), s)
  admitted (ok ((p, matches), t)) s = (if matches then ok p else err not_the_pin, t)

  unfoldable pub establish :
      Text → ℕ → Text → Text → Option Remote → Store → Result DialError Peer × Store
  establish nonce now mine want none s = (err handshake_failed, s)
  establish nonce now mine want (some r) s =
      if text_eq r.key mine
      then (err ourselves, s)
      else if not (text_eq want []) && not (fp_matches want r.key)
      then (err fp_mismatch, s)
      else admitted (observe nonce r.name r.key now s) s

-- n.live, by the lower-cased name; the sessions that have begun, by their names; and whether the
-- connection of a session has been closed by the node.
pub record Table : Type 0 where
  pub live : Text → Option ℕ
  pub begun : ℕ → Option Text
  pub closed : ℕ → Bool

abbrev pub no_sessions : Table
no_sessions = record { live = λ key. none; begun = λ l. none; closed = λ l. false }

abbrev pub link_for : Text → Table → Option ℕ
link_for key t = t.live key

abbrev pub is_link : ℕ → Option ℕ → Bool
is_link l none = false
is_link l (some old) = old == l

-- The newest session of a name takes the place of the old one, which is closed.
unfoldable pub register : Text → ℕ → Table → Table
register key l t = record {
  live = λ k. if text_eq key k then some l else t.live k;
  begun = λ m. if l == m then some key else t.begun m;
  closed = λ m. if is_link m (t.live key) then true else t.closed m;
}

-- A session that ends is closed, and leaves the table if it is still the one of its name.
unfoldable pub unregister : Text → ℕ → Table → Table
unregister key l t = record {
  live = λ k. if text_eq key k && is_link l (t.live key) then none else t.live k;
  begun = t.begun;
  closed = λ m. if l == m then true else t.closed m;
}

-- A new session is a new *link; one that ends has begun.
pub data Step : Table → Table → Type 0 where
  up : (t : Table) (key : Text) (l : ℕ) → t.begun l ≡ none → Step t (register key l t)
  down : (t : Table) (key : Text) (l : ℕ) → t.begun l ≡ some key → Step t (unregister key l t)

pub data Steps : Table → Table → Type 0 where
  done : (t : Table) → Steps t t
  next : {t u v : Table} → Steps t u → Step u v → Steps t v
