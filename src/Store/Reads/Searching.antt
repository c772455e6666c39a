-- ===== src/Store/Reads/Searching.antt =====
-- What Search of internal/store/store.go finds, and when its slice is out of range.
use chirp.Prelude.{
  ℕ, zero, suc, ◌+◌, ◌≤◌, ◌<◌, ◌≡◌, ◌≢◌, refl, false, List, [], ◌∷◌, Text, none, some, ok, err, ltb,
  length, arith, All, Option-cases, Result-cases, Bool-cases, inl, inr, text_eq,
}
use chirp.Prelude.Int.{ℤ, pos, negsuc}
use chirp.Crypto.Aead.{Aead}
use chirp.Store.Bolt.{Bolt}
use chirp.Store.Casing.{Casing}
use chirp.Store.Rows.{Message, Store, Keys}
use chirp.Store.Messages.{decrypt_message}
use chirp.Store.Reads.{
  limit_within, slice_out_of_range, SearchResult, index, slice, snippet_at, hit, search_rows,
  search,
}

-- What is found lies within the text.
index-le : (s sub : Text) (n : ℕ) → index s sub ≡ some n → n ≤ length s
unfolding index
index-le [] sub n h = ground arith
index-le (b ∷ s) sub n h = elim (Option-cases (index s sub)) [
  | inl e ↦ ground arith
  | inr (m, e) ↦ ground (arith, index-le s sub m e)
]

snippet_at-within :
    (idx : ℕ) (query body : Text) → idx ≤ length body → snippet_at idx query body ≢ none
unfolding snippet_at slice
snippet_at-within idx query body h e = ground arith

snippet_at-panics :
    (idx : ℕ) (query body : Text) → length body + 20 < idx → snippet_at idx query body ≡ none
unfolding snippet_at slice
snippet_at-panics idx query body h = ground arith

limit_within-le : (limit : ℤ) → limit_within 100 20 limit ≤ 100
limit_within-le (pos zero) = ground arith
limit_within-le (pos (suc n)) = ground arith
limit_within-le (negsuc n) = ground arith

limit-suc : (limit : ℤ) → (n : ℕ) × (limit_within 100 20 limit ≡ suc n)
limit-suc (pos zero) = (19, refl)
limit-suc (pos (suc n)) = elim (Bool-cases (ltb 100 (suc n))) [
  | inl h ↦ (19, rw h refl)
  | inr h ↦ (n, rw h refl)
]
limit-suc (negsuc n) = (19, refl)

module _ ⦃bolt : Bolt⦄ ⦃casing : Casing⦄ ⦃a : Aead⦄ where
  abbrev pub Matches : Text → SearchResult → Type 0
  Matches query r = index (casing.to_lower r.message.body) query ≢ none

  search_rows-Matches :
      (keys : Keys) (query : Text) (left : ℕ) (l : List (Text × Message)) (out : List SearchResult)
      → search_rows keys query left l ≡ ok out
      → (length out ≤ left) × All (Matches query) out
  unfolding search_rows hit
  search_rows-Matches keys query zero l out h = ground arith
  search_rows-Matches keys query (suc left) [] out h = ground arith
  search_rows-Matches keys query (suc left) ((k, m) ∷ l) out h =
      elim (Result-cases (decrypt_message keys m)) [
        | inr (e, f) ↦ absurd (ground arith)
        | inl (n, f) ↦ elim (Option-cases (index (casing.to_lower n.body) query)) [
          | inl g ↦ ground (arith, search_rows-Matches keys query (suc left) l out)
          | inr (idx, g) ↦ elim (Option-cases (snippet_at idx query n.body)) [
            | inl e ↦ absurd (ground arith)
            | inr (part, e) ↦ elim (Result-cases (search_rows keys query left l)) [
              | inr (x, r) ↦ absurd (ground arith)
              | inl (rest, r) ↦ ground (arith, search_rows-Matches keys query left l rest r)
            ]
          ]
        ]
      ]

  -- At most a hundred results, each of which holds the query.
  search-Matches :
      (query : Text) (limit : ℤ) (s : Store) (out : List SearchResult)
      → search query limit s ≡ ok out
      → (length out ≤ 100) × All (Matches (casing.to_lower query)) out
  unfolding search
  search-Matches query limit s out h = ground (
    arith,
    search_rows-Matches s.keys (casing.to_lower query) (limit_within 100 20 limit)
        (bolt.pairs s.db.msgs) out,
    limit_within-le limit,
  )

  search_rows-slices :
      (keys : Keys) (query : Text) (left : ℕ) (l : List (Text × Message))
      → ((t : Text) → length (casing.to_lower t) ≡ length t)
      → search_rows keys query left l ≢ err slice_out_of_range
  unfolding search_rows hit
  search_rows-slices keys query zero l h = λ e. ground arith
  search_rows-slices keys query (suc left) [] h = λ e. ground arith
  search_rows-slices keys query (suc left) ((k, m) ∷ l) h =
      elim (Result-cases (decrypt_message keys m)) [
        | inr (e, f) ↦ λ e'. ground arith
        | inl (n, f) ↦ elim (Option-cases (index (casing.to_lower n.body) query)) [
          | inl g ↦ ground (arith, search_rows-slices keys query (suc left) l h)
          | inr (idx, g) ↦ ground (
            arith,
            search_rows-slices keys query left l h,
            snippet_at-within idx query n.body
                (omega (arith, index-le (casing.to_lower n.body) query idx g, h n.body)),
          )
        ]
      ]

  -- Search never cuts a body out of range, if the lower-case form of each text is as long as the
  -- text.
  search-slices :
      (query : Text) (limit : ℤ) (s : Store)
      → ((t : Text) → length (casing.to_lower t) ≡ length t)
      → search query limit s ≢ err slice_out_of_range
  unfolding search
  search-slices query limit s h = ground (
    arith,
    search_rows-slices s.keys (casing.to_lower query) (limit_within 100 20 limit)
        (bolt.pairs s.db.msgs) h,
  )

  -- Search slices out of range on a body whose lower-case form has the query more than 20 bytes
  -- after the end of the body, if that message is the first in the bucket and can be read, and the
  -- query is not empty.
  pub search-panics :
      (query k : Text) (limit : ℤ) (idx : ℕ) (m n : Message) (l : List (Text × Message)) (s : Store)
      → bolt.pairs s.db.msgs ≡ (k, m) ∷ l
      → decrypt_message s.keys m ≡ ok n
      → index (casing.to_lower n.body) (casing.to_lower query) ≡ some idx
      → length n.body + 20 < idx
      → text_eq (casing.to_lower query) [] ≡ false
      → search query limit s ≡ err slice_out_of_range
  unfolding search
  search-panics query k limit idx m n l s p d i h q =
      let (left, e) = limit-suc limit in
      rw (q, p, e)
        (unfold search_rows hit in
          ground (arith, snippet_at-panics idx (casing.to_lower query) n.body h))
