-- ===== src/Examples/Messages.antt =====
-- A message to bo is stored and acknowledged.
use chirp.Prelude.{◌≡◌, ◌++◌, refl, true, [], ◌∷◌, Text, codes, text_eq, text_ltb, none, ok, arith}
use chirp.Store.Bolt.{find}
use chirp.Store.Rows.{Message, delivered, dir_out, Db, Store}
use chirp.Store.Peers.{peer_key}
use chirp.Store.Messages.{is_out, msg_key, add_row, put_msg, delivered_db, load_by_id, deliver_row}
use chirp.Store.Messages.Indexed.{Indexed, add_row-Indexed}
use chirp.Store.Messages.Delivery.{StoredAs, deliver_row-delivered}
use chirp.Examples.Buckets.{rows_bolt}
use chirp.Examples.Setup.{ascii_casing, tag_aead}
use chirp.Examples.Data.{plain, empty_db, empty-Indexed, bo, hello}

abbrev pub stored_hello : Message
stored_hello = record hello { seq = 1 }

abbrev pub hello_key : Text
hello_key = bo ++ 0 ∷ 0 ∷ 0 ∷ 0 ∷ 0 ∷ 0 ∷ 0 ∷ 0 ∷ 1 ∷ []

abbrev pub hello_db : Db
hello_db = record empty_db {
  msgs_seq = 1;
  msgs = ((hello_key, stored_hello) ∷ [], tt);
  idx = ((codes "m1", hello_key) ∷ [], tt);
  outbox = ((codes "m1", hello_key) ∷ [], tt);
}

abbrev pub hello_store : Store
hello_store = record { db = hello_db; keys = plain }

added_hello : (add_row hello none empty_db).1 ≡ hello_db
unfolding add_row msg_key peer_key
added_hello = refl

pub hello-Indexed : Indexed hello_db
unfolding find
hello-Indexed = rw (← added_hello) (add_row-Indexed hello empty_db empty-Indexed (ground arith))

abbrev done_hello : Message
done_hello = record stored_hello { status = delivered }

abbrev done_db : Db
done_db = record hello_db { msgs = ((hello_key, done_hello) ∷ [], tt); outbox = ([], tt) }

bo_acks : deliver_row (codes "BO") (codes "m1") hello_db ≡ ok ((done_hello, true), done_db)
unfolding deliver_row load_by_id delivered_db put_msg find text_eq text_ltb
bo_acks = refl

deliver_row-delivered_example :
    (codes "m1" ≡ codes "m1")
    × (is_out dir_out ≡ true)
    × (ascii_casing.equal_fold bo (codes "BO") ≡ true)
    × (delivered ≡ delivered)
    × StoredAs done_db (codes "m1") done_hello
    × (rows_bolt.get done_db.outbox (codes "m1") ≡ none)
    × (rows_bolt.get done_db.msgs [] ≡ rows_bolt.get hello_db.msgs [])
deliver_row-delivered_example =
    deliver_row-delivered (codes "BO") (codes "m1") [] done_hello true hello_db done_db
      hello-Indexed (unfold find in unfold text_eq in ground arith) bo_acks
