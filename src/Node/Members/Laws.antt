-- ===== src/Node/Members/Laws.antt =====
-- Sorting keeps the members; a list without duplicates is a set of names.
use chirp.Prelude.{
  text_ltb_asym, ℕ, suc, ◌+◌, ◌≤◌, ◌≡◌, refl, false, ◌&&◌, ◌||◌, not, List, [], ◌∷◌, Text, text_eq,
  text_ltb, text_eq→eq, text_eq_refl, length, map, if◌then◌else◌, arith,
}
use chirp.Store.Casing.{Casing}
use chirp.Node.Members.{
  insert_string, sort_onto, sort_strings, mem_text, is_member, remove_peer, dedupe_from,
  dedupe_members,
}

-- Each name is not above the next one.
abbrev pub Sorted : List Text → Type 0
Sorted [] = Unit {0}
Sorted (s ∷ []) = Unit {0}
Sorted (s ∷ t ∷ l) = (text_ltb t s ≡ false) × Sorted (t ∷ l)

insert_string-Sorted : (s : Text) (l : List Text) → Sorted l → Sorted (insert_string s l)
unfolding insert_string
insert_string-Sorted s [] h = tt
insert_string-Sorted s (t ∷ []) h = ground (arith, text_ltb_asym s t)
insert_string-Sorted s (t ∷ u ∷ l) h =
    ground (arith, text_ltb_asym s t, insert_string-Sorted s (u ∷ l) h.1)

sort_onto-Sorted : (done l : List Text) → Sorted done → Sorted (sort_onto done l)
unfolding sort_onto
sort_onto-Sorted done [] h = h
sort_onto-Sorted done (s ∷ l) h =
    sort_onto-Sorted (insert_string s done) l (insert_string-Sorted s done h)

length-insert_string : (s : Text) (l : List Text) → length (insert_string s l) ≡ suc (length l)
unfolding insert_string
length-insert_string s [] = ground arith
length-insert_string s (t ∷ l) = ground (arith, length-insert_string s l)

length-sort_onto : (done l : List Text) → length (sort_onto done l) ≡ length done + length l
unfolding sort_onto
length-sort_onto done [] = ground arith
length-sort_onto done (s ∷ l) =
    ground (arith, length-sort_onto (insert_string s done) l, length-insert_string s done)

pub length-sort_strings : (l : List Text) → length (sort_strings l) ≡ length l
unfolding sort_strings
length-sort_strings l = omega (arith, length-sort_onto [] l)

mem-insert_string :
    (x s : Text) (l : List Text) → mem_text x (insert_string s l) ≡ (text_eq x s || mem_text x l)
unfolding insert_string
mem-insert_string x s [] = ground arith
mem-insert_string x s (t ∷ l) = ground (arith, mem-insert_string x s l)

mem-sort_onto :
    (x : Text) (done l : List Text)
    → mem_text x (sort_onto done l) ≡ (mem_text x done || mem_text x l)
unfolding sort_onto
mem-sort_onto x done [] = ground arith
mem-sort_onto x done (s ∷ l) =
    ground (arith, mem-sort_onto x (insert_string s done) l, mem-insert_string x s done)

mem-sort_strings : (x : Text) (l : List Text) → mem_text x (sort_strings l) ≡ mem_text x l
unfolding sort_strings
mem-sort_strings x l = mem-sort_onto x [] l

module _ ⦃casing : Casing⦄ where
  pub length-remove_peer : (l : List Text) (name : Text) → length (remove_peer l name) ≤ length l
  unfolding remove_peer
  length-remove_peer [] name = omega arith
  length-remove_peer (m ∷ l) name = ground (arith, length-remove_peer l name)

  -- After removePeer a name is a member exactly if it was one and is not the removed name in
  -- another casing.
  pub is_member-remove_peer :
      (l : List Text) (name other : Text)
      → is_member (remove_peer l name) other
        ≡ (is_member l other && not (casing.equal_fold name other))
  unfolding remove_peer is_member
  is_member-remove_peer [] name other = ground arith
  is_member-remove_peer (m ∷ l) name other = ground (
    arith,
    is_member-remove_peer l name other,
    casing.equal_fold_comm m name,
    casing.equal_fold_comm name m,
    casing.equal_fold_trans m name other,
    casing.equal_fold_trans name m other,
    casing.equal_fold_trans m other name,
    casing.equal_fold_comm name other,
  )

  -- How often a lower-case name occurs.
  abbrev pub count_lower : Text → List Text → ℕ
  count_lower x [] = 0
  count_lower x (m ∷ l) =
      let n = count_lower x l in if text_eq x (casing.to_lower m) then suc n else n

  count-insert_string :
      (x s : Text) (l : List Text) → count_lower x (insert_string s l) ≡ count_lower x (s ∷ l)
  unfolding insert_string
  count-insert_string x s [] = refl
  count-insert_string x s (t ∷ l) = ground (arith, count-insert_string x s l)

  count-sort_onto :
      (x : Text) (done l : List Text)
      → count_lower x (sort_onto done l) ≡ count_lower x done + count_lower x l
  unfolding sort_onto
  count-sort_onto x done [] = ground arith
  count-sort_onto x done (s ∷ l) =
      ground (arith, count-sort_onto x (insert_string s done) l, count-insert_string x s done)

  count-dedupe_from :
      (x : Text) (seen l : List Text)
      → count_lower x (dedupe_from seen l)
        ≡ (if mem_text x seen then 0 else if mem_text x (map casing.to_lower l) then 1 else 0)
  unfolding dedupe_from
  count-dedupe_from x seen [] = ground arith
  count-dedupe_from x seen (m ∷ l) = ground (
    arith,
    count-dedupe_from x seen l,
    count-dedupe_from x (casing.to_lower m ∷ seen) l,
    text_eq→eq x (casing.to_lower m),
    text_eq_refl x,
  )

  -- dedupeMembers returns a sorted list in which each lower-case name occurs once if the given list
  -- has it in some casing, and not at all otherwise.
  dedupe_members_set :
      (x : Text) (l : List Text)
      → Sorted (dedupe_members l)
        × (count_lower x (dedupe_members l) ≡ (if mem_text x (map casing.to_lower l) then 1 else 0))
  unfolding dedupe_members sort_strings
  dedupe_members_set x l = (
    sort_onto-Sorted [] (dedupe_from [] l) tt,
    ground (arith, count-sort_onto x [] (dedupe_from [] l), count-dedupe_from x [] l),
  )
