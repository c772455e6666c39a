-- ===== src/Examples/Peers.antt =====
-- Ann meets bo.
use chirp.Prelude.{◌≡◌, refl, true, false, [], ◌∷◌, Text, codes, text_eq, none, some, ok, arith}
use chirp.Identity.Fingerprint.{fingerprint}
use chirp.Crypto.Sealed.{is_encrypted}
use chirp.Store.Bolt.{find}
use chirp.Store.Rows.{Peer, Store}
use chirp.Store.Seals.{decrypt}
use chirp.Store.Peers.{peer_key, find_peer, put_peer, observe}
use chirp.Store.Peers.Pins.{Filed, put_peer-Filed}
use chirp.Store.Peers.Trust.{Pin, Pinned, observe-meet}
use chirp.Examples.Buckets.{rows_bolt}
use chirp.Examples.Setup.{ascii_casing, tag_aead, sum_sha}
use chirp.Examples.Data.{nonce, nonce-IsNonce, new_store, empty_db, bo}
use chirp.Node.Dialing.{Nearby}
use chirp.Node.Roster.{PeerView, those_up, by_name, strangers, pinned_views, sort_views}
use chirp.Prelude.{List, Bool, ◌++◌}

empty-Filed : Filed empty_db
unfolding find
empty-Filed = record { at_key = λ k p h. absurd (ground arith) }

abbrev pub k1 : Text
k1 = codes "K1"

abbrev pub k2 : Text
k2 = codes "K2"

-- Bo has been met with the key K1, and verified.
abbrev bo_pin : Pin
bo_pin = record { key = k1; verified = true; claim = none }

abbrev pub bo_row : Peer
bo_row = record {
  name = bo;
  key = k1;
  fp = fingerprint k1;
  first_seen = 1;
  last_seen = 2;
  verified = true;
  pending_key = none;
  pending_at = 0;
}

abbrev pub bo_store : Store
bo_store = put_peer new_store bo_row

pub bo-Filed : Filed bo_store.db
bo-Filed = put_peer-Filed new_store bo_row empty-Filed

pub bo_found : find_peer bo_store.db bo ≡ some bo_row
unfolding find_peer put_peer peer_key find text_eq
bo_found = refl

bo-Pinned : Pinned bo_store bo (some bo_pin)
unfolding find_peer put_peer peer_key find text_eq decrypt is_encrypted
bo-Pinned = record { key = refl; fp = refl; verified = refl; claim = tt }

k2-plain : is_encrypted k2 ≡ false
unfolding is_encrypted text_eq
k2-plain = refl

observe-meet_example :
    (q : Peer) × (t : Store) × (observe nonce bo k2 9 bo_store ≡ ok ((q, false), t))
    × Pinned t bo (some (record bo_pin { claim = some k2 }))
unfolding text_eq put_peer
observe-meet_example =
    observe-meet nonce bo k2 9 bo_store (some bo_pin) bo-Filed (λ k e. absurd (ground arith))
      nonce-IsNonce k2-plain bo-Pinned

abbrev ann_nearby : Nearby
ann_nearby = record {
  peer = record { name = codes "ann"; fp = codes "aa" };
  up = true;
  seen = 7;
  fails = 0;
  next_dial = 0;
  dialing = false;
}

abbrev nobody_live : Text → Bool
nobody_live key = false

abbrev shown_list : List PeerView
shown_list = sort_views (
    pinned_views nobody_live (by_name (those_up (ann_nearby ∷ []))) [] bo_store (bo_row ∷ [])
    ++ strangers (bo_row ∷ []) (by_name (those_up (ann_nearby ∷ []))))
