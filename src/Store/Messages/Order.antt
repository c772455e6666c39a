-- ===== src/Store/Messages/Order.antt =====
-- Pending returns messages in the order of their numbers.
use chirp.Prelude.{◌≤◌, ◌≡◌, List, [], ◌∷◌, Text, ok, arith, Result-cases, inl, inr}
use chirp.Crypto.Aead.{Aead}
use chirp.Store.Bolt.{Bolt}
use chirp.Store.Casing.{Casing}
use chirp.Store.Rows.{Message, Store}
use chirp.Store.Messages.{insert_by_seq, sort_from, sort_by_seq, pending_rows, pending_msgs}

abbrev pub InOrder : List Message → Type 0
InOrder [] = Unit {0}
InOrder (m ∷ []) = Unit {0}
InOrder (m ∷ n ∷ l) = (m.seq ≤ n.seq) × InOrder (n ∷ l)

insert_by_seq-InOrder : (m : Message) (l : List Message) → InOrder l → InOrder (insert_by_seq m l)
unfolding insert_by_seq
insert_by_seq-InOrder m [] h = tt
insert_by_seq-InOrder m (n ∷ []) h = ground arith
insert_by_seq-InOrder m (n ∷ o ∷ l) h = ground (arith, insert_by_seq-InOrder m (o ∷ l) h.1)

sort_from-InOrder : (done l : List Message) → InOrder done → InOrder (sort_from done l)
unfolding sort_from
sort_from-InOrder done [] h = h
sort_from-InOrder done (m ∷ l) h =
    sort_from-InOrder (insert_by_seq m done) l (insert_by_seq-InOrder m done h)

module _ ⦃bolt : Bolt⦄ ⦃casing : Casing⦄ ⦃a : Aead⦄ where
  -- The messages that Pending returns are in ascending order of their numbers.
  pending_msgs-InOrder :
      (peer : Text) (s : Store) (l : List Message) → pending_msgs peer s ≡ ok l → InOrder l
  unfolding pending_msgs sort_by_seq
  pending_msgs-InOrder peer s l h =
      elim (Result-cases (pending_rows s.keys (bolt.get s.db.msgs) peer (bolt.pairs s.db.outbox))) [
        | inr (x, e) ↦ absurd (ground arith)
        | inl (out, e) ↦ ground (arith, sort_from-InOrder [] out)
      ]
