-- ===== src/Examples/Search.antt =====
-- A letter whose lower case is a byte longer: U+023A is c8 ba, and U+2C65 is e2 b1 a5.
use chirp.Store.Seals.{decrypt_string}
use chirp.Prelude.{
  ◌≡◌, ◌==◌, ◌&&◌, refl, [], ◌∷◌, Text, codes, text_eq, text_eq_refl, text_eq→eq, err, ℕ, zero, suc,
  if◌then◌else◌, arith,
}
use chirp.Prelude.Int.{pos}
use chirp.Store.Casing.{Casing}
use chirp.Store.Rows.{Message, Store}
use chirp.Store.Messages.{decrypt_message}
use chirp.Store.Reads.{index, search, slice_out_of_range}
use chirp.Store.Reads.Searching.{search-panics}
use chirp.Examples.Buckets.{rows_bolt}
use chirp.Examples.Setup.{tag_aead, lower, text_eq_comm, trim_left, trim_right}
use chirp.Examples.Data.{plain, empty_db, hello}

abbrev longer : Text → Text
longer [] = []
longer (a ∷ []) = lower a ∷ []
longer (a ∷ b ∷ s) =
    let rest = longer s in
    let tail = longer (b ∷ s) in
    if a == 200 && b == 186 then 226 ∷ 177 ∷ 165 ∷ rest else lower a ∷ tail

instance abbrev longer_casing : Casing
longer_casing = record {
  to_lower = longer;
  trim_space = λ s. trim_right (trim_left s);
  equal_fold = λ s t. text_eq (longer s) (longer t);
  equal_fold_refl = λ s. text_eq_refl (longer s);
  equal_fold_comm = λ s t. text_eq_comm (longer s) (longer t);
  equal_fold_trans = λ s t u h k.
      ground (arith, text_eq→eq (longer s) (longer t), text_eq→eq (longer t) (longer u));
}

abbrev letters : ℕ → Text
letters zero = codes "hi"
letters (suc n) = 200 ∷ 186 ∷ letters n

abbrev shouted : Message
shouted = record hello { body = letters 23 }

abbrev shouted_store : Store
shouted_store = record {
  db = record empty_db { msgs = ((codes "k", shouted) ∷ [], tt) };
  keys = plain;
}

search-panics_example : search (codes "hi") (pos 9) shouted_store ≡ err slice_out_of_range
unfolding index decrypt_string text_eq
search-panics_example =
    search-panics (codes "hi") (codes "k") (pos 9) 69 shouted shouted [] shouted_store refl
      (unfold decrypt_message in refl) refl (ground arith) (unfold text_eq in refl)
