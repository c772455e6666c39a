-- ===== src/Identity/Fingerprint.antt =====
-- Fingerprint and FingerprintGroups of internal/identity/identity.go.
use chirp.Prelude.{ℕ, zero, suc, ◌*◌, ◌≡◌, ◌<◌, List, [], ◌∷◌, ◌++◌, Text, length, All, arith}
use chirp.Bytes.Hex.{encode_to_string, length-encode}

-- crypto/sha256.Sum256, whose values this library does not compute: 32 bytes for every input.
pub record Sha256 : Type 0 where
  pub sum256 : Text → Text
  pub length-sum256 : (s : Text) → length (sum256 s) ≡ 32
  pub sum256-bytes : (s : Text) → All (λ b. b < 256) (sum256 s)

module _ ⦃sha : Sha256⦄ where
  unfoldable pub fingerprint : Text → Text
  fingerprint key = encode_to_string (sha.sum256 key)

  pub length-fingerprint : (key : Text) → length (fingerprint key) ≡ 64
  unfolding fingerprint
  length-fingerprint key = omega (arith, length-encode (sha.sum256 key), sha.length-sum256 key)

-- Groups of four; a rest of fewer than four is left out.
unfoldable pub fingerprint_groups : Text → List Text
fingerprint_groups (a ∷ b ∷ c ∷ d ∷ s) = (a ∷ b ∷ c ∷ d ∷ []) ∷ fingerprint_groups s
fingerprint_groups _ = []

abbrev pub concat : List Text → Text
concat [] = []
concat (g ∷ gs) = g ++ concat gs

-- Where the length is a multiple of four, the groups spell the whole fingerprint, four at a time.
concat-fingerprint_groups :
    (n : ℕ) (fp : Text)
    → length fp ≡ 4 * n
    → (concat (fingerprint_groups fp) ≡ fp) × (length (fingerprint_groups fp) ≡ n)
unfolding fingerprint_groups
concat-fingerprint_groups n [] h = ground arith
concat-fingerprint_groups n (a ∷ []) h = absurd (omega arith)
concat-fingerprint_groups n (a ∷ b ∷ []) h = absurd (omega arith)
concat-fingerprint_groups n (a ∷ b ∷ c ∷ []) h = absurd (omega arith)
concat-fingerprint_groups zero (a ∷ b ∷ c ∷ d ∷ s) h = absurd (omega arith)
concat-fingerprint_groups (suc n) (a ∷ b ∷ c ∷ d ∷ s) h =
    ground (arith, concat-fingerprint_groups n s (omega arith))

module _ ⦃sha : Sha256⦄ where
  -- The groups of four that the user compares spell the whole fingerprint of the key, and there are
  -- 16 of them.
  pub groups-fingerprint :
      (key : Text)
      → (concat (fingerprint_groups (fingerprint key)) ≡ fingerprint key)
        × (length (fingerprint_groups (fingerprint key)) ≡ 16)
  groups-fingerprint key =
      concat-fingerprint_groups 16 (fingerprint key) (omega (arith, length-fingerprint key))
