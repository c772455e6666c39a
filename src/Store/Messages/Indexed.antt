-- ===== src/Store/Messages/Indexed.antt =====
-- The three buckets of messages agree, and every operation keeps them so.
use chirp.Prelude.{
  suc, ◌<◌, ◌≤◌, ◌≡◌, true, ◌&&◌, Text, text_eq, text_eq→eq, text_eq_refl, none, some, ok, arith,
  Option-cases, Bool-cases, inl, inr,
}
use chirp.Store.Bolt.{Bolt}
use chirp.Store.Casing.{Casing}
use chirp.Store.Rows.{Message, delivered, Db}
use chirp.Store.Messages.{
  undelivered, put_msg, remove_msg, load_by_id, delivered_db, msg_key, add_row,
}
use chirp.Store.Messages.MsgKeys.{msg_key-injective}

module _ ⦃bolt : Bolt⦄ ⦃casing : Casing⦄ where
  -- A row stands at the key of its peer and number, the index finds it by its id, and the outbox
  -- holds exactly the outbound messages that are not delivered.
  pub record Indexed (db : Db) : Type 0 where
    pub row_of :
        (id k : Text)
        → bolt.get db.idx id ≡ some k
        → (m : Message) × ((bolt.get db.msgs k ≡ some m) × (m.id ≡ id))
    pub at_key :
        (k : Text) (m : Message)
        → bolt.get db.msgs k ≡ some m
        → (bolt.get db.idx m.id ≡ some k) × (k ≡ msg_key m.peer m.seq) × (m.seq ≤ db.msgs_seq)
    pub waits :
        (k : Text) (m : Message)
        → bolt.get db.msgs k ≡ some m
        → undelivered m ≡ true
        → bolt.get db.outbox m.id ≡ some k
    pub unsent :
        (id k : Text)
        → bolt.get db.outbox id ≡ some k
        → (m : Message) × ((bolt.get db.msgs k ≡ some m) × (m.id ≡ id) × (undelivered m ≡ true))

  -- The next key is free.
  fresh :
      (db : Db) (p : Text)
      → Indexed db
      → suc db.msgs_seq < 18446744073709551616
      → bolt.get db.msgs (msg_key p (suc db.msgs_seq)) ≡ none
  fresh db p w b = elim (Option-cases (bolt.get db.msgs (msg_key p (suc db.msgs_seq)))) [
    | inl e ↦ e
    | inr (m, e) ↦
        let (i, k, le) = w.at_key (msg_key p (suc db.msgs_seq)) m e in
        absurd (
          omega (
            arith,
            le,
            msg_key-injective p m.peer (suc db.msgs_seq) m.seq b (omega (arith, le, b)) k,
          ))
  ]

  -- A new message with an id that no row has.
  added : Message → Db → Db
  added m db = (add_row m none db).1

  added-Indexed :
      (m : Message) (db : Db)
      → Indexed db
      → bolt.get db.idx m.id ≡ none
      → suc db.msgs_seq < 18446744073709551616
      → Indexed (added m db)
  unfolding added add_row
  added-Indexed m db w n b = record {
    row_of = row_of;
    at_key = λ k r e. ground (
      arith,
      bolt.get-put db.msgs key k row,
      bolt.get-put db.idx m.id r.id key,
      w.at_key k r,
      text_eq_refl m.id,
      text_eq→eq key k,
      text_eq→eq m.id r.id,
    );
    waits = λ k r e u. ground (
      arith,
      bolt.get-put db.msgs key k row,
      bolt.get-put db.outbox m.id r.id key,
      w.at_key k r,
      w.waits k r,
      text_eq_refl m.id,
      text_eq→eq key k,
      text_eq→eq m.id r.id,
    );
    unsent = unsent;
  }
    where
      key : Text
      key = msg_key m.peer (suc db.msgs_seq)

      row : Message
      row = record m { seq = suc db.msgs_seq }

      free : bolt.get db.msgs key ≡ none
      free = fresh db m.peer w b

      row_of :
          (id k : Text)
          → bolt.get (added m db).idx id ≡ some k
          → (r : Message) × ((bolt.get (added m db).msgs k ≡ some r) × (r.id ≡ id))
      row_of id k e = elim (Bool-cases (text_eq m.id id)) [
        | inl h ↦ (
          row,
          ground (
            arith,
            bolt.get-put db.idx m.id id key,
            bolt.get-put db.msgs key k row,
            text_eq→eq m.id id,
            text_eq_refl key,
          ),
        )
        | inr h ↦
            let (r, g) = w.row_of id k (ground (arith, bolt.get-put db.idx m.id id key)) in
            (r, ground (arith, bolt.get-put db.msgs key k row, text_eq→eq key k, free))
      ]

      unsent :
          (id k : Text)
          → bolt.get (added m db).outbox id ≡ some k
          → (r : Message) × ((bolt.get (added m db).msgs k ≡ some r)
              × (r.id ≡ id)
              × (undelivered r ≡ true))
      unsent id k e = elim (Bool-cases (undelivered m && text_eq m.id id)) [
        | inl h ↦ (
          row,
          ground (
            arith,
            bolt.get-put db.outbox m.id id key,
            bolt.get-put db.msgs key k row,
            text_eq→eq m.id id,
            text_eq_refl key,
          ),
        )
        | inr h ↦
            let (r, g) = w.unsent id k (ground (arith, bolt.get-put db.outbox m.id id key)) in
            (r, ground (arith, bolt.get-put db.msgs key k row, text_eq→eq key k, free))
      ]

  -- AddMessage keeps the buckets in agreement, for a new message and for a duplicate.
  pub add_row-Indexed :
      (m : Message) (db : Db)
      → Indexed db
      → suc db.msgs_seq < 18446744073709551616
      → Indexed (add_row m (bolt.get db.idx m.id) db).1
  unfolding added
  add_row-Indexed m db w b = elim (Option-cases (bolt.get db.idx m.id)) [
    | inl e ↦ rw e (added-Indexed m db w e b)
    | inr (k, e) ↦ rw e (unfold add_row in w)
  ]

  -- A row that is removed takes its entries with it.
  pub remove_msg-Indexed :
      (k : Text) (m : Message) (db : Db)
      → Indexed db
      → bolt.get db.msgs k ≡ some m
      → Indexed (remove_msg k m.id db)
  unfolding remove_msg
  remove_msg-Indexed k m db w g = record {
    row_of = λ id j e.
        let (r, h) = w.row_of id j (ground (arith, bolt.get-delete db.idx m.id id)) in
        (
          r,
          ground (
            arith,
            bolt.get-delete db.idx m.id id,
            bolt.get-delete db.msgs k j,
            text_eq→eq k j,
            text_eq_refl m.id,
          ),
        );
    at_key = λ j r e. ground (
      arith,
      bolt.get-delete db.idx m.id r.id,
      bolt.get-delete db.msgs k j,
      w.at_key j r,
      w.at_key k m,
      text_eq→eq m.id r.id,
      text_eq_refl k,
    );
    waits = λ j r e u. ground (
      arith,
      bolt.get-delete db.outbox m.id r.id,
      bolt.get-delete db.msgs k j,
      w.at_key j r,
      w.at_key k m,
      w.waits j r,
      text_eq→eq m.id r.id,
      text_eq_refl k,
    );
    unsent = λ id j e.
        let (r, h) = w.unsent id j (ground (arith, bolt.get-delete db.outbox m.id id)) in
        (
          r,
          ground (
            arith,
            bolt.get-delete db.outbox m.id id,
            bolt.get-delete db.msgs k j,
            text_eq→eq k j,
            text_eq_refl m.id,
          ),
        );
  }

  -- Writing a row over with one of the same id, peer and number.
  pub put_msg-Indexed :
      (k : Text) (m n : Message) (db : Db)
      → Indexed db
      → bolt.get db.msgs k ≡ some m
      → n.id ≡ m.id
      → n.peer ≡ m.peer
      → n.seq ≡ m.seq
      → undelivered n ≡ undelivered m
      → Indexed (put_msg k n db)
  unfolding put_msg
  put_msg-Indexed k m n db w g i p q u = record {
    row_of = λ id j e. elim (Bool-cases (text_eq k j)) [
      | inl h ↦ (n, ground (arith, bolt.get-put db.msgs k j n, w.row_of id j e, text_eq→eq k j))
      | inr h ↦ let (r, f) = w.row_of id j e in (r, ground (arith, bolt.get-put db.msgs k j n))
    ];
    at_key = λ j r e.
        ground
          (arith, bolt.get-put db.msgs k j n, w.at_key j r, w.at_key k m g, text_eq→eq k j, p, q);
    waits = λ j r e v.
        ground (arith, bolt.get-put db.msgs k j n, w.waits j r, w.waits k m g, text_eq→eq k j);
    unsent = λ id j e. elim (Bool-cases (text_eq k j)) [
      | inl h ↦ (n, ground (arith, bolt.get-put db.msgs k j n, w.unsent id j e, text_eq→eq k j))
      | inr h ↦ let (r, f) = w.unsent id j e in (r, ground (arith, bolt.get-put db.msgs k j n))
    ];
  }

  -- Marking a row delivered takes it out of the outbox.
  pub delivered_db-Indexed :
      (k : Text) (m : Message) (db : Db)
      → Indexed db
      → bolt.get db.msgs k ≡ some m
      → Indexed (delivered_db m.id k (record m { status = delivered }) db)
  unfolding delivered_db put_msg
  delivered_db-Indexed k m db w g = record {
    row_of = λ id j e. elim (Bool-cases (text_eq k j)) [
      | inl h ↦ (n, ground (arith, bolt.get-put db.msgs k j n, w.row_of id j e, text_eq→eq k j))
      | inr h ↦ let (r, f) = w.row_of id j e in (r, ground (arith, bolt.get-put db.msgs k j n))
    ];
    at_key = λ j r e.
        ground (arith, bolt.get-put db.msgs k j n, w.at_key j r, w.at_key k m g, text_eq→eq k j);
    waits = λ j r e v. ground (
      arith,
      bolt.get-put db.msgs k j n,
      bolt.get-delete db.outbox m.id r.id,
      w.waits j r,
      w.at_key j r,
      w.at_key k m g,
      text_eq→eq k j,
      text_eq→eq m.id r.id,
      text_eq_refl k,
    );
    unsent = λ id j e.
        let (r, f) = w.unsent id j (ground (arith, bolt.get-delete db.outbox m.id id)) in
        (
          r,
          ground (
            arith,
            bolt.get-put db.msgs k j n,
            bolt.get-delete db.outbox m.id id,
            text_eq→eq k j,
            text_eq_refl m.id,
          ),
        );
  }
    where
      n : Message
      n = record m { status = delivered }

  -- What the id leads to.
  pub load_by_id-eq :
      (db : Db) (id k : Text) (m : Message)
      → Indexed db
      → load_by_id db id ≡ ok (m, k)
      → (bolt.get db.msgs k ≡ some m) × (m.id ≡ id) × (bolt.get db.idx id ≡ some k)
  unfolding load_by_id
  load_by_id-eq db id k m w h = elim (Option-cases (bolt.get db.idx id)) [
    | inl e ↦ absurd (ground arith)
    | inr (j, e) ↦ ground (arith, w.row_of id j e)
  ]
