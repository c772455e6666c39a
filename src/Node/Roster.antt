-- ===== src/Node/Roster.antt =====
-- Me and Peers of internal/node/views.go: the pinned peers and those nearby that have not been met,
-- in the order in which they are shown. Words, icons and addresses are left out. What is nearby is a
-- list in the order in which the map is walked; `live` says which lower-cased names have a session.
pub mod Order
use chirp.Prelude.{
  ℕ, suc, Bool, true, false, ◌&&◌, ◌||◌, not, List, [], ◌∷◌, ◌++◌, Text, text_eq, text_ltb, Option,
  none, some, ok, ◌>>=◌, if◌then◌else◌,
}
use chirp.Prelude.Int.{pos}
use chirp.Crypto.Aead.{Aead}
use chirp.Identity.Fingerprint.{Sha256, fingerprint, fingerprint_groups}
use chirp.Store.Bolt.{Bolt}
use chirp.Store.Casing.{Casing}
use chirp.Store.Rows.{Peer, Message, Store}
use chirp.Store.Errors.{Res}
use chirp.Store.Messages.{pending_msgs}
use chirp.Store.Meta.{Identity}
use chirp.Store.Peers.Trust.{Trust, trust_of}
use chirp.Store.Reads.{list_peers, messages}
use chirp.Node.Dialing.{Nearby}

pub record Me : Type 0 where
  pub name : Text
  pub fp : Text
  pub fp_groups : List Text

pub record PeerView : Type 0 where
  pub name : Text
  pub fp : Text
  pub fp_groups : List Text
  pub trust : Trust
  pub online : Bool
  pub nearby : Bool
  pub first_seen : ℕ
  pub last_seen : ℕ
  pub queued : ℕ
  pub last : Option Message
  pub new_fp : Option Text

unfoldable pub me_of : ⦃sha : Sha256⦄ → Identity → Me
me_of id = record {
  name = id.name;
  fp = fingerprint id.public;
  fp_groups = fingerprint_groups (fingerprint id.public);
}

-- Those that are up.
unfoldable pub those_up : List Nearby → List Nearby
those_up [] = []
those_up (nb ∷ l) = let rest = those_up l in if nb.up then nb ∷ rest else rest

module _ ⦃casing : Casing⦄ where
  unfoldable pub named : Text → List Nearby → Bool
  named key [] = false
  named key (nb ∷ l) = text_eq (casing.to_lower nb.peer.name) key || named key l

  -- A later entry of the map takes the place of an earlier one of the same name.
  unfoldable pub by_name : List Nearby → List Nearby
  by_name [] = []
  by_name (nb ∷ l) =
      let rest = by_name l in if named (casing.to_lower nb.peer.name) l then rest else nb ∷ rest

  unfoldable pub queued_for : Text → List Message → ℕ
  queued_for key [] = 0
  queued_for key (m ∷ l) =
      let rest = queued_for key l in if text_eq (casing.to_lower m.peer) key then suc rest else rest

  unfoldable pub met : Text → List Peer → Bool
  met key [] = false
  met key (p ∷ l) = text_eq (casing.to_lower p.name) key || met key l

  -- Those that no pinned peer has the name of.
  unfoldable pub strangers : List Peer → List Nearby → List PeerView
  strangers pinned [] = []
  strangers pinned (nb ∷ l) =
      let rest = strangers pinned l in
      if met (casing.to_lower nb.peer.name) pinned
      then rest
      else record {
        name = nb.peer.name;
        fp = nb.peer.fp;
        fp_groups = fingerprint_groups nb.peer.fp;
        trust = trust_of none;
        online = false;
        nearby = true;
        first_seen = 0;
        last_seen = nb.seen;
        queued = 0;
        last = none;
        new_fp = none;
      }
        ∷ rest

  -- Who is online stands first, then by name.
  unfoldable pub before : PeerView → PeerView → Bool
  before v w =
      if v.online && not w.online
      then true
      else if not v.online && w.online
      then false
      else text_ltb (casing.to_lower v.name) (casing.to_lower w.name)

  unfoldable pub insert_view : PeerView → List PeerView → List PeerView
  insert_view v [] = v ∷ []
  insert_view v (w ∷ l) = let rest = insert_view v l in if before w v then w ∷ rest else v ∷ w ∷ l

  unfoldable pub sort_views : List PeerView → List PeerView
  sort_views [] = []
  sort_views (v ∷ l) = insert_view v (sort_views l)

  -- Messages(name, 1), where it does not fail.
  unfoldable pub last_message : Res (List Message) → Option Message
  last_message (ok (m ∷ [])) = some m
  last_message _ = none

  module _ ⦃bolt : Bolt⦄ ⦃a : Aead⦄ ⦃sha : Sha256⦄ where
    unfoldable pub pinned_view :
        (Text → Bool) → List Nearby → List Message → Store → Peer → PeerView
    pinned_view live near pend s p = record {
      name = p.name;
      fp = p.fp;
      fp_groups = fingerprint_groups p.fp;
      trust = trust_of (some p);
      online = live (casing.to_lower p.name);
      nearby = named (casing.to_lower p.name) near;
      first_seen = p.first_seen;
      last_seen = p.last_seen;
      queued = queued_for (casing.to_lower p.name) pend;
      last = last_message (messages p.name (pos 1) s);
      new_fp = elim p.pending_key [ none ↦ none | some key ↦ some (fingerprint key) ];
    }

    unfoldable pub pinned_views :
        (Text → Bool) → List Nearby → List Message → Store → List Peer → List PeerView
    pinned_views live near pend s [] = []
    pinned_views live near pend s (p ∷ l) =
        pinned_view live near pend s p ∷ pinned_views live near pend s l

    unfoldable pub peers : (Text → Bool) → List Nearby → Store → Res (List PeerView)
    peers live nearby s = do
      pinned ← list_peers s
      pend ← pending_msgs [] s
      let near = by_name (those_up nearby)
      ok (sort_views (pinned_views live near pend s pinned ++ strangers pinned near))
