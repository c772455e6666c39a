-- ===== src/Node/Roster/Order.antt =====
-- The order of Peers of internal/node/views.go, and who is in it.
use chirp.Prelude.{◌≡◌, ◌⊎◌, Bool, true, false, List, [], ◌∷◌, Text, text_ltb, All}
use chirp.Crypto.Aead.{Aead}
use chirp.Identity.Fingerprint.{Sha256}
use chirp.Store.Bolt.{Bolt}
use chirp.Store.Casing.{Casing}
use chirp.Store.Rows.{Peer, Message, Store}
use chirp.Node.Dialing.{Nearby}
use chirp.Node.Roster.{PeerView, pinned_view}

abbrev pub Has : PeerView → List PeerView → Type 0
Has v [] = ⊥
Has v (w ∷ l) = (w ≡ v) ⊎ Has v l

module _ ⦃casing : Casing⦄ where
  -- One is online and the other not, or both are alike and the other has no earlier name.
  abbrev pub Precedes : PeerView → PeerView → Type 0
  Precedes v w =
      ((v.online ≡ true) × (w.online ≡ false))
      ⊎ ((v.online ≡ w.online)
          × (text_ltb (casing.to_lower w.name) (casing.to_lower v.name) ≡ false))

  abbrev pub Ordered : List PeerView → Type 0
  Ordered [] = Unit {0}
  Ordered (v ∷ l) = All (Precedes v) l × Ordered l

  module _ ⦃bolt : Bolt⦄ ⦃a : Aead⦄ ⦃sha : Sha256⦄ where
    -- The view of each pinned peer.
    abbrev pub Shown :
        (Text → Bool) → List Nearby → List Message → Store → List Peer → List PeerView → Type 0
    Shown live near pend s [] l = Unit {0}
    Shown live near pend s (p ∷ ps) l =
        Has (pinned_view live near pend s p) l × Shown live near pend s ps l
