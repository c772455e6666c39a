-- ===== src/System/Pins.antt =====
-- What the program does to pinned keys over any sequence of acts.
use chirp.Prelude.{◌+◌, ◌<◌, ◌≡◌, refl, length, List, [], ◌∷◌, Text, Option, some, All, arith}
use chirp.Crypto.Aead.{Aead}
use chirp.Identity.Backup.{Kit}
use chirp.Identity.Fingerprint.{Sha256}
use chirp.Store.Bolt.{Bolt}
use chirp.Store.Casing.{Casing}
use chirp.Store.Rows.{Peer}
use chirp.Store.Meta.{Kdf}
use chirp.Store.Messages.Indexed.{Indexed}
use chirp.Store.Peers.{find_peer}
use chirp.Store.Peers.Pins.{Filed}
use chirp.Store.Peers.History.{SameKey, Keeps, peers-Keeps, Keeps-then}
use chirp.Api.Server.{rows_of}
use chirp.System.{Act, System, act, act_each}
use chirp.System.Kept.{Spared, act-Both}

module _ ⦃bolt : Bolt⦄ ⦃casing : Casing⦄ ⦃a : Aead⦄ ⦃sha : Sha256⦄ ⦃kdf : Kdf⦄ ⦃kit : Kit⦄ where
  act_each-Keeps :
      (url_host : Text → Option Text) (l : List Act) (s : System) (n : Text)
      → All Spared l
      → Indexed s.machine.db
      → s.machine.db.msgs_seq + length l < 18446744073709551616
      → Filed s.machine.db
      → Keeps (rows_of s.machine) (rows_of (act_each url_host l s).machine) n
  unfolding act_each
  act_each-Keeps url_host [] s n p i b f =
      peers-Keeps (rows_of s.machine) (rows_of s.machine) n refl f
  act_each-Keeps url_host (x ∷ l) s n p i b f =
      let t = act url_host x s in
      let (moves, kept) = act-Both url_host x s p.0 i (omega arith) in
      Keeps-then (rows_of s.machine) (rows_of t.machine) (rows_of (act_each url_host l t).machine) n
        (kept n f) (λ g. act_each-Keeps url_host l t n p.1 moves.0 (omega (arith, moves.1)) g)

  -- Whatever the program does, requests to the API that accept a changed key or forget a peer
  -- aside, a name that is pinned keeps its pinned key and fingerprint: whoever presents which keys
  -- under which names, whatever envelopes sessions receive, and whatever else the API is asked. To
  -- begin with, every row of a peer stands at the key of its name, and rows, index and outbox of
  -- the messages agree; the numbers in use and the acts to come must fit in 64 bits.
  pub act_each-SameKey :
      (url_host : Text → Option Text) (l : List Act) (s : System) (n : Text) (p : Peer)
      → All Spared l
      → Indexed s.machine.db
      → Filed s.machine.db
      → s.machine.db.msgs_seq + length l < 18446744073709551616
      → find_peer s.machine.db n ≡ some p
      → (q : Peer) × (find_peer (act_each url_host l s).machine.db n ≡ some q) × SameKey p q
  act_each-SameKey url_host l s n p h i f b e = (act_each-Keeps url_host l s n h i b f).kept p e
