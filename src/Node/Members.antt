-- ===== src/Node/Members.antt =====
-- Lists of members: isMember, removePeer, dedupeMembers and sortStrings of internal/node/rooms.go.
pub mod Laws
use chirp.Prelude.{
  ℕ, Bool, true, false, ◌||◌, not, List, [], ◌∷◌, Text, text_eq, text_ltb, if◌then◌else◌,
}
use chirp.Store.Casing.{Casing}

-- sortStrings: the names one after another move down past those that are greater. What is passed
-- is the end of a part that is sorted, so the place is the same from the front.
unfoldable pub insert_string : Text → List Text → List Text
insert_string s [] = s ∷ []
insert_string s (t ∷ l) =
    let rest = insert_string s l in if text_ltb s t then s ∷ t ∷ l else t ∷ rest

unfoldable pub sort_onto : List Text → List Text → List Text
sort_onto done [] = done
sort_onto done (s ∷ l) = sort_onto (insert_string s done) l

unfoldable pub sort_strings : List Text → List Text
sort_strings l = sort_onto [] l

abbrev pub mem_text : Text → List Text → Bool
mem_text s [] = false
mem_text s (t ∷ l) = text_eq s t || mem_text s l

module _ ⦃casing : Casing⦄ where
  unfoldable pub is_member : List Text → Text → Bool
  is_member [] name = false
  is_member (m ∷ l) name = casing.equal_fold m name || is_member l name

  unfoldable pub remove_peer : List Text → Text → List Text
  remove_peer [] name = []
  remove_peer (m ∷ l) name =
      let rest = remove_peer l name in if casing.equal_fold m name then rest else m ∷ rest

  -- The map `seen` as the list of its keys.
  unfoldable pub dedupe_from : List Text → List Text → List Text
  dedupe_from seen [] = []
  dedupe_from seen (m ∷ l) =
      let lower = casing.to_lower m in
      let rest = dedupe_from seen l in
      let more = dedupe_from (lower ∷ seen) l in if mem_text lower seen then rest else m ∷ more

  unfoldable pub dedupe_members : List Text → List Text
  dedupe_members l = sort_strings (dedupe_from [] l)
