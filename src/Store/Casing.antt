-- ===== src/Store/Casing.antt =====
-- strings.ToLower, strings.TrimSpace and strings.EqualFold rest on the tables of Go's package
-- unicode, which are data that this library does not repeat: they are taken as functions. EqualFold
-- compares the folding orbits of the characters, so it is an equivalence. It and ToLower are not
-- the same relation (ſ folds to s and is its own lower case), and nothing here says that they are.
use chirp.Prelude.{◌≡◌, Bool, true, Text}

pub record Casing : Type 0 where
  pub to_lower : Text → Text
  pub trim_space : Text → Text
  pub equal_fold : Text → Text → Bool
  pub equal_fold_refl : (s : Text) → equal_fold s s ≡ true
  pub equal_fold_comm : (s t : Text) → equal_fold s t ≡ equal_fold t s
  pub equal_fold_trans :
      (s t u : Text) → equal_fold s t ≡ true → equal_fold t u ≡ true → equal_fold s u ≡ true
