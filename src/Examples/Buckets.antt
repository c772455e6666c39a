-- ===== src/Examples/Buckets.antt =====
-- A bucket as a list of rows in ascending order of the keys: bbolt's laws hold of it.
use chirp.Prelude.{
  text_ltb_total, text_ltb_trans, ◌≡◌, refl, true, List, [], ◌∷◌, Text, text_eq, text_ltb,
  text_eq_refl, text_eq→eq, none, some, if◌then◌else◌, arith, Bool-cases, inl, inr,
}
use chirp.Store.Bolt.{Bolt, find, Ascending}

module _ {V : Type 0} where
  abbrev pub insert : Text → V → List (Text × V) → List (Text × V)
  insert k v [] = (k, v) ∷ []
  insert k v ((j, w) ∷ l) =
      if text_ltb k j
      then (k, v) ∷ (j, w) ∷ l
      else if text_eq j k
      then (k, v) ∷ l
      else (j, w) ∷ insert k v l

  abbrev pub remove : Text → List (Text × V) → List (Text × V)
  remove k [] = []
  remove k ((j, w) ∷ l) = if text_eq j k then remove k l else (j, w) ∷ remove k l

  abbrev Below : Text → List (Text × V) → Type 0
  Below j [] = Unit {0}
  Below j ((k, w) ∷ l) = text_ltb j k ≡ true

  Ascending-head :
      (j : Text) (v : V) (l : List (Text × V)) → Ascending ((j, v) ∷ l) → Below j l × Ascending l
  Ascending-head j v [] a = (tt, tt)
  Ascending-head j v ((k, w) ∷ l) a = a

  Ascending-cons :
      (j : Text) (v : V) (l : List (Text × V)) → Below j l → Ascending l → Ascending ((j, v) ∷ l)
  Ascending-cons j v [] b a = tt
  Ascending-cons j v ((k, w) ∷ l) b a = (b, a)

  insert-Below :
      (j k : Text) (v : V) (l : List (Text × V))
      → text_ltb j k ≡ true
      → Below j l
      → Below j (insert k v l)
  insert-Below j k v [] h b = h
  insert-Below j k v ((i, w) ∷ l) h b = ground arith

  pub insert-Ascending :
      (k : Text) (v : V) (l : List (Text × V)) → Ascending l → Ascending (insert k v l)
  insert-Ascending k v [] a = tt
  insert-Ascending k v ((j, w) ∷ l) a =
      let (b, r) = Ascending-head j w l a in
      elim (Bool-cases (text_ltb k j)) [
        | inl h ↦ rw h (h, a)
        | inr h ↦ elim (Bool-cases (text_eq j k)) [
          | inl e ↦ rw (h, e) (Ascending-cons k v l (rw (← text_eq→eq j k e) b) r)
          | inr e ↦
              rw (h, e)
                (Ascending-cons j w (insert k v l) (insert-Below j k v l (text_ltb_total k j h e) b)
                  (insert-Ascending k v l r))
        ]
      ]

  remove-Below : (j k : Text) (l : List (Text × V)) → Below j l → Ascending l → Below j (remove k l)
  remove-Below j k [] b a = tt
  remove-Below j k ((i, w) ∷ []) b a = ground arith
  remove-Below j k ((i, w) ∷ (h, u) ∷ l) b a = elim (Bool-cases (text_eq i k)) [
    | inl e ↦ rw e (remove-Below j k ((h, u) ∷ l) (text_ltb_trans j i h b a.0) a.1)
    | inr e ↦ rw e b
  ]

  pub remove-Ascending : (k : Text) (l : List (Text × V)) → Ascending l → Ascending (remove k l)
  remove-Ascending k [] a = tt
  remove-Ascending k ((j, w) ∷ l) a =
      let (b, r) = Ascending-head j w l a in
      elim (Bool-cases (text_eq j k)) [
        | inl e ↦ rw e (remove-Ascending k l r)
        | inr e ↦
            rw e (Ascending-cons j w (remove k l) (remove-Below j k l b r) (remove-Ascending k l r))
      ]

  pub find-insert :
      (k j : Text) (v : V) (l : List (Text × V))
      → find j (insert k v l) ≡ (if text_eq k j then some v else find j l)
  unfolding find
  find-insert k j v [] = ground arith
  find-insert k j v ((i, w) ∷ l) =
      ground (arith, find-insert k j v l, text_eq→eq i k, text_eq→eq k j, text_eq→eq i j)

  pub find-remove :
      (k j : Text) (l : List (Text × V))
      → find j (remove k l) ≡ (if text_eq k j then none else find j l)
  unfolding find
  find-remove k j [] = ground arith
  find-remove k j ((i, w) ∷ l) =
      ground
        (arith, find-remove k j l, text_eq→eq i k, text_eq→eq k j, text_eq→eq i j, text_eq_refl k)

abbrev pub Rows : Type 0 → Type 0
Rows V = (l : List (Text × V)) × Ascending l

pub find-nil : {V : Type 0} (k : Text) → find {V = V} k [] ≡ none
unfolding find
find-nil k = refl

instance abbrev pub rows_bolt : Bolt
rows_bolt = record {
  Bucket = Rows;
  empty = λ V. ([], tt);
  get = λ b k. find k b.0;
  put = λ b k v. (insert k v b.0, insert-Ascending k v b.0 b.1);
  delete = λ b k. (remove k b.0, remove-Ascending k b.0 b.1);
  pairs = λ b. b.0;
  get-empty = λ V k. find-nil k;
  get-put = λ b k j v. find-insert k j v b.0;
  get-delete = λ b k j. find-remove k j b.0;
  find-pairs = λ b k. refl;
  pairs-Ascending = λ b. b.1;
}
