-- ===== src/Examples/Acting.antt =====
-- A short life of the program: bo's node meets ann, reads a message of hers, sends one that the user
-- writes, and ticks.
use chirp.Prelude.{refl, ◌≡◌, true, false, List, [], ◌∷◌, codes, none, some, replicate, arith}
use chirp.Prelude.Int.{pos}
use chirp.Proto.Envelope.{Envelope, MsgType}
use chirp.Store.Messages.Indexed.{Indexed}
use chirp.Node.Transfer.{bare}
use chirp.Node.Link.{Turn}
use chirp.Api.Routes.{Call}
use chirp.System.{Act, asked, met, started, heard, ended, ticked, System, act_each}
use chirp.Examples.Buckets.{rows_bolt}
use chirp.Examples.Setup.{ascii_casing, tag_aead, sum_sha}
use chirp.Examples.Data.{new_store, empty-Indexed, nonce, bo, ann}
use chirp.Examples.Secrets.{padded, small_kit}
use chirp.Store.Messages.Mail.{SameMail-Indexed}
use chirp.Store.Rows.{Peer}
use chirp.Store.Peers.{find_peer, put_peer}
use chirp.Store.Peers.History.{SameKey}
use chirp.System.Pins.{act_each-SameKey}
use chirp.Examples.Peers.{k2, bo_row, bo_store, bo-Filed, bo_found}
use chirp.Examples.Requests.{a_world, up, from_ui, host_of}

abbrev a_turn : Turn
a_turn = record { me = bo; nonce = nonce; now = 5; writes = true }

abbrev from_ann : Envelope
from_ann = record (bare MsgType.msg) { id = codes "m9"; ts = pos 5; body = codes "hello" }

abbrev a_life : List Act
a_life =
    met nonce 4 [] (some (record { name = ann; key = replicate 32 3 })) 1
    ∷ started 1 ann []
    ∷ heard 1 a_turn (some from_ann)
    ∷ asked from_ui a_world (Call.post_message_to ann (some (codes "hi", [])))
    ∷ ticked (record {
      names = ann ∷ [];
      timing = λ name. record {
        force = false;
        now = 9;
        base = 1;
        max = 1;
        random = λ id. 0;
        writes = true;
      };
      room_timing = record { now = 9; base = 1; max = 1 };
      reaches = λ name. true;
      takes = λ name. true;
    })
    ∷ ended 1 ann
    ∷ []

abbrev at_start : System
at_start = record { machine = up; links = λ k. none }

-- A pinned name, and a stranger who presents another key under it before all that.
abbrev pinned_start : System
pinned_start = record { machine = record up { db = bo_store.db }; links = λ k. none }

pinned-Indexed : Indexed bo_store.db
unfolding put_peer
pinned-Indexed = SameMail-Indexed bo_store.db new_store.db (refl, refl, refl, refl) empty-Indexed

act_each-SameKey_example :
    (q : Peer) × (find_peer
        (act_each host_of
          (met nonce 9 [] (some (record { name = bo; key = k2 })) 2 ∷ a_life)
          pinned_start).machine.db
        bo
      ≡ some q)
    × SameKey bo_row q
unfolding put_peer
act_each-SameKey_example =
    act_each-SameKey host_of (met nonce 9 [] (some (record { name = bo; key = k2 })) 2 ∷ a_life)
      pinned_start bo bo_row (ground arith) pinned-Indexed bo-Filed (omega arith) bo_found
