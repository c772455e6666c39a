-- ===== src/Examples/Setup.antt =====
-- Small functions in the place of the packages: ASCII case, a checksum, and a seal that adds a tag
-- of sixteen bytes. They have the laws, and none of the strength.
use chirp.Prelude.{
  ℕ, ◌+◌, ◌-◌, ◌%◌, ◌≡◌, ◌<◌, refl, Bool, true, ◌&&◌, [], ◌∷◌, ◌++◌, Text, text_eq, text_eq_refl,
  text_eq→eq, zero, suc, Option, none, some, if◌then◌else◌, leb, ◌==◌, length, take, drop,
  replicate, length-append, take-append, drop-append, All, All-append, arith, map,
}
use chirp.Crypto.Aead.{Aead}
use chirp.Identity.Fingerprint.{Sha256}
use chirp.Store.Casing.{Casing}

abbrev pub lower : ℕ → ℕ
lower b = if leb 65 b && leb b 90 then b + 32 else b

abbrev pub ascii_lower : Text → Text
ascii_lower s = map lower s

abbrev pub trim_left : Text → Text
trim_left [] = []
trim_left (b ∷ s) = if b == 32 then trim_left s else b ∷ s

abbrev pub blank : Text → Bool
blank [] = true
blank (b ∷ s) = b == 32 && blank s

abbrev pub trim_right : Text → Text
trim_right [] = []
trim_right (b ∷ s) = if blank (b ∷ s) then [] else b ∷ trim_right s

abbrev pub ascii_fold : Text → Text → Bool
ascii_fold s t = text_eq (ascii_lower s) (ascii_lower t)

pub text_eq_comm : (s t : Text) → text_eq s t ≡ text_eq t s
unfolding text_eq
text_eq_comm [] [] = refl
text_eq_comm [] (b ∷ t) = refl
text_eq_comm (a ∷ s) [] = refl
text_eq_comm (a ∷ s) (b ∷ t) = ground (arith, text_eq_comm s t)

instance abbrev pub ascii_casing : Casing
ascii_casing = record {
  to_lower = ascii_lower;
  trim_space = λ s. trim_right (trim_left s);
  equal_fold = ascii_fold;
  equal_fold_refl = λ s. text_eq_refl (ascii_lower s);
  equal_fold_comm = λ s t. text_eq_comm (ascii_lower s) (ascii_lower t);
  equal_fold_trans = λ s t u h k. ground (
    arith,
    text_eq→eq (ascii_lower s) (ascii_lower t),
    text_eq→eq (ascii_lower t) (ascii_lower u),
  );
}

abbrev pub sum : Text → ℕ
sum [] = 0
sum (b ∷ s) = b + sum s

pub All-replicate : (n b : ℕ) → b < 256 → All (λ c. c < 256) (replicate n b)
All-replicate zero b h = tt
All-replicate (suc n) b h = ground (arith, All-replicate n b h)

abbrev pub checksum : Text → Text
checksum s = (sum s % 256) ∷ (length s % 256) ∷ replicate 30 0

instance abbrev pub sum_sha : Sha256
sum_sha = record {
  sum256 = checksum;
  length-sum256 = λ s. refl;
  sum256-bytes = λ s. ground (arith, All-replicate 30 0);
}

abbrev pub tag : Text → Text → Text
tag key nonce = (sum key % 256) ∷ (sum nonce % 256) ∷ replicate 14 0

abbrev pub tagged : Text → Text → Text → Option Text
tagged key nonce data' =
    if text_eq (drop (length data' - 16) data') (tag key nonce)
    then some (take (length data' - 16) data')
    else none

pub tagged-append : (key nonce text : Text) → tagged key nonce (text ++ tag key nonce) ≡ some text
tagged-append key nonce text = ground (
  arith,
  length-append text (tag key nonce),
  take-append text (tag key nonce),
  drop-append text (tag key nonce),
  text_eq_refl (tag key nonce),
)

instance abbrev pub tag_aead : Aead
tag_aead = record {
  seal = λ key nonce text. text ++ tag key nonce;
  open' = tagged;
  open-seal = tagged-append;
  length-seal = λ key nonce text. length-append text (tag key nonce);
  seal-bytes = λ key nonce text h.
      All-append (λ (b : ℕ). b < 256) text (tag key nonce) h (ground (arith, All-replicate 14 0));
}
