-- ===== src/Store/Bolt.antt =====
-- go.etcd.io/bbolt, which the store only calls: buckets of rows under byte keys. `pairs` lists a
-- bucket as a cursor walks it, in ascending order of the keys.
use chirp.Prelude.{
  ◌≡◌, true, List, [], ◌∷◌, Text, text_eq, text_ltb, Option, none, some, if◌then◌else◌,
}

module _ {ℓ} {V : Type ℓ} where
  unfoldable pub find : Text → List (Text × V) → Option V
  find k [] = none
  find k ((j, v) ∷ l) = if text_eq j k then some v else find k l

  -- Each key is below the next one.
  abbrev pub Ascending : List (Text × V) → Type 0
  Ascending [] = Unit {0}
  Ascending ((j, v) ∷ []) = Unit {0}
  Ascending ((j, v) ∷ (k, w) ∷ l) = (text_ltb j k ≡ true) × Ascending ((k, w) ∷ l)

pub record Bolt : Type 1 where
  pub Bucket : Type 0 → Type 0
  pub empty : (V : Type 0) → Bucket V
  pub get : {V : Type 0} → Bucket V → Text → Option V
  pub put : {V : Type 0} → Bucket V → Text → V → Bucket V
  pub delete : {V : Type 0} → Bucket V → Text → Bucket V
  pub pairs : {V : Type 0} → Bucket V → List (Text × V)
  pub get-empty : (V : Type 0) (k : Text) → get (empty V) k ≡ none
  pub get-put :
      {V : Type 0} (b : Bucket V) (k j : Text) (v : V)
      → get (put b k v) j ≡ (if text_eq k j then some v else get b j)
  pub get-delete :
      {V : Type 0} (b : Bucket V) (k j : Text)
      → get (delete b k) j ≡ (if text_eq k j then none else get b j)
  pub find-pairs : {V : Type 0} (b : Bucket V) (k : Text) → find k (pairs b) ≡ get b k
  pub pairs-Ascending : {V : Type 0} (b : Bucket V) → Ascending (pairs b)
