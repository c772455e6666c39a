-- ===== src/Store/Messages/Removal.antt =====
-- deleteMessages removes the rows that its predicate names, and no others.
use chirp.Prelude.{
  text_ltb_irrefl, text_ltb_trans, ℕ, ◌≡◌, refl, sym, ◌∙◌, Bool, true, List, [], ◌∷◌, Text, text_eq,
  text_ltb, text_eq→eq, text_eq_refl, Option, none, some, arith, Option-cases, Bool-cases, inl, inr,
  if◌then◌else◌,
}
use chirp.Store.Bolt.{Bolt, find, Ascending}
use chirp.Store.Casing.{Casing}
use chirp.Store.Rows.{Message, Db}
use chirp.Store.Messages.{
  undelivered, remove_msg, chosen, remove_all, delete_messages, prunes, prune,
}
use chirp.Store.Messages.Indexed.{Indexed, remove_msg-Indexed}

-- A key below the first one is not in the list.
find-below :
    {V : Type 0} (k j : Text) (v : V) (l : List (Text × V))
    → text_ltb k j ≡ true
    → Ascending ((j, v) ∷ l)
    → find k ((j, v) ∷ l) ≡ none
unfolding find
find-below k j v [] h a = ground (arith, text_eq→eq j k, text_ltb_irrefl k)
find-below k j v ((i, w) ∷ l) h a =
    ground (
      arith,
      text_eq→eq j k,
      text_ltb_irrefl k,
      find-below k i w l (text_ltb_trans k j i h a.0) a.1,
    )

module _ ⦃bolt : Bolt⦄ ⦃casing : Casing⦄ where
  -- Every row of the list stands in the bucket.
  There : Db → List (Text × Message) → Type 0
  There db l = (k : Text) (m : Message) → find k l ≡ some m → bolt.get db.msgs k ≡ some m

  find-tail :
      (k : Text) (m : Message) (l : List (Text × Message))
      → Ascending ((k, m) ∷ l)
      → (find k l ≡ none) × Ascending l
  unfolding find
  find-tail k m [] a = (refl, tt)
  find-tail k m ((j, n) ∷ l) a = (find-below k j n l a.0 a.1, a.1)

  There-tail :
      (k : Text) (m : Message) (l : List (Text × Message)) (db : Db)
      → Ascending ((k, m) ∷ l)
      → There db ((k, m) ∷ l)
      → There db l × There (remove_msg k m.id db) l
  unfolding There find remove_msg
  There-tail k m l db a t = (
    λ j n f. ground (arith, t j n, find-tail k m l a, text_eq→eq k j),
    λ j n f. ground (arith, t j n, find-tail k m l a, text_eq→eq k j, bolt.get-delete db.msgs k j),
  )

  There-head :
      (k : Text) (m : Message) (l : List (Text × Message)) (db : Db)
      → There db ((k, m) ∷ l)
      → bolt.get db.msgs k ≡ some m
  unfolding There find
  There-head k m l db t = ground (arith, t k m, text_eq_refl k)

  remove_all-Indexed :
      (pred : Message → Bool) (l : List (Text × Message)) (db : Db)
      → Ascending l
      → There db l
      → Indexed db
      → Indexed (remove_all (chosen pred l) db)
  unfolding chosen remove_all
  remove_all-Indexed pred [] db a t w = w
  remove_all-Indexed pred ((k, m) ∷ l) db a t w =
      let (same, less) = There-tail k m l db a t in
      let rest = (find-tail k m l a).1 in
      elim (Bool-cases (pred m)) [
        | inl h ↦ rw h (
            remove_all-Indexed pred l (remove_msg k m.id db) rest less
              (remove_msg-Indexed k m db w (There-head k m l db t)))
        | inr h ↦ rw h (remove_all-Indexed pred l db rest same w)
      ]

  abbrev pub keep : (Message → Bool) → Option Message → Option Message
  keep pred none = none
  keep pred (some m) = if pred m then none else some m

  -- A row of the list is kept or not, any other row stays.
  kept : (Message → Bool) → Option Message → Option Message → Option Message
  kept pred none old = old
  kept pred (some m) old = keep pred (some m)

  remove_all-get :
      (pred : Message → Bool) (l : List (Text × Message)) (db : Db) (j : Text)
      → Ascending l
      → There db l
      → bolt.get (remove_all (chosen pred l) db).msgs j ≡ kept pred (find j l) (bolt.get db.msgs j)
  unfolding chosen remove_all kept find
  remove_all-get pred [] db j a t = refl
  remove_all-get pred ((k, m) ∷ l) db j a t =
      let (same, less) = There-tail k m l db a t in
      let (gone, rest) = find-tail k m l a in
      elim (Bool-cases (pred m)) [
        | inl h ↦ ground (
          arith,
          remove_all-get pred l (remove_msg k m.id db) j rest less,
          removed-get k m.id j db,
          text_eq→eq k j,
          text_eq_refl k,
        )
        | inr h ↦ ground (
          arith,
          remove_all-get pred l db j rest same,
          There-head k m l db t,
          text_eq→eq k j,
          text_eq_refl k,
        )
      ]
    where
      removed-get :
          (k id j : Text) (db : Db)
          → bolt.get (remove_msg k id db).msgs j
            ≡ (if text_eq k j then none else bolt.get db.msgs j)
      removed-get k id j db = unfold remove_msg in bolt.get-delete db.msgs k j

  There-pairs : (db : Db) → There db (bolt.pairs db.msgs)
  unfolding There
  There-pairs db k m h = sym (bolt.find-pairs db.msgs k) ∙ h

  -- deleteMessages removes exactly the rows that its predicate names: what is found at any key
  -- afterwards is what was there before, unless the predicate holds of it.
  delete_messages-get :
      (pred : Message → Bool) (db : Db) (k : Text)
      → bolt.get (delete_messages pred db).msgs k ≡ keep pred (bolt.get db.msgs k)
  unfolding delete_messages kept
  delete_messages-get pred db k = ground (
    arith,
    remove_all-get pred (bolt.pairs db.msgs) db k (bolt.pairs-Ascending db.msgs) (There-pairs db),
    bolt.find-pairs db.msgs k,
    Option-cases (bolt.get db.msgs k),
  )

  pub delete_messages-Indexed :
      (pred : Message → Bool) (db : Db) → Indexed db → Indexed (delete_messages pred db)
  unfolding delete_messages
  delete_messages-Indexed pred db w =
      remove_all-Indexed pred (bolt.pairs db.msgs) db (bolt.pairs-Ascending db.msgs)
        (There-pairs db) w

  -- Where rows, index and outbox agree, Prune keeps a message that still has to be delivered,
  -- however old: its row and its entry in the outbox are as before.
  prune-undelivered :
      (cutoff : ℕ) (k : Text) (m : Message) (db : Db)
      → Indexed db
      → bolt.get db.msgs k ≡ some m
      → undelivered m ≡ true
      → (bolt.get (prune cutoff db).msgs k ≡ some m)
        × (bolt.get (prune cutoff db).outbox m.id ≡ some k)
  unfolding prune
  prune-undelivered cutoff k m db w g u =
      let same : bolt.get (delete_messages (prunes cutoff) db).msgs k ≡ some m =
        ground (arith, delete_messages-get (prunes cutoff) db k) in
      (same, (delete_messages-Indexed (prunes cutoff) db w).waits k m same u)
