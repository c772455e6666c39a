-- ===== src/Store/Messages/Mail.antt =====
-- Operations that leave the three buckets of messages, and their numbers, as they are.
use chirp.Prelude.{suc, ◌≤◌, ◌≡◌, arith}
use chirp.Store.Bolt.{Bolt}
use chirp.Store.Casing.{Casing}
use chirp.Store.Rows.{Db, Store}
use chirp.Store.Messages.Indexed.{Indexed}

module _ ⦃bolt : Bolt⦄ where
  abbrev pub SameMail : Db → Db → Type 0
  SameMail d e =
      (d.msgs ≡ e.msgs) × (d.idx ≡ e.idx) × (d.outbox ≡ e.outbox) × (d.msgs_seq ≡ e.msgs_seq)

  -- Neither messages nor peers change.
  abbrev pub Apart : Db → Db → Type 0
  Apart d e = SameMail d e × (d.peers ≡ e.peers)

  pub SameMail-Indexed : ⦃casing : Casing⦄ (d e : Db) → SameMail d e → Indexed e → Indexed d
  SameMail-Indexed d e h w =
      let (rows, ids, out, count) = h in
      record {
        row_of = λ id k g.
            let (m, (found, same)) = w.row_of id k (rw ids at g) in (m, (rw rows found, same));
        at_key =
            λ k m g. let (i, at, le) = w.at_key k m (rw rows at g) in (rw ids i, at, rw count le);
        waits = λ k m g u. rw out (w.waits k m (rw rows at g) u);
        unsent = λ id k g.
            let (m, (found, same, late)) = w.unsent id k (rw out at g) in
            (m, (rw rows found, same, late));
      }

  -- One step uses at most one number.
  abbrev pub Next : ⦃casing : Casing⦄ → Store → Store → Type 0
  Next s t = Indexed t.db × (t.db.msgs_seq ≤ suc s.db.msgs_seq)

  pub same-Next : ⦃casing : Casing⦄ (s t : Store) → SameMail t.db s.db → Indexed s.db → Next s t
  same-Next s t h w = (SameMail-Indexed t.db s.db h w, ground (arith, h))

  -- The peers stay.
  abbrev pub Quiet : ⦃casing : Casing⦄ → Store → Store → Type 0
  Quiet s t = Next s t × (t.db.peers ≡ s.db.peers)

  pub Apart-Quiet : ⦃casing : Casing⦄ (s t : Store) → Apart t.db s.db → Indexed s.db → Quiet s t
  Apart-Quiet s t h w = (same-Next s t h.0 w, h.1)
