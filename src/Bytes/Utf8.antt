-- ===== src/Bytes/Utf8.antt =====
-- utf8.ValidString and utf8.RuneCountInString.
use chirp.Prelude.{
  ℕ, zero, suc, ◌≤◌, ◌≡◌, refl, Bool, true, false, ◌&&◌, [], ◌∷◌, Text, Option, none, some, ltb,
  leb, length, arith, if◌then◌else◌,
}

abbrev pub in_range : ℕ → ℕ → ℕ → Bool
in_range lo hi b = leb lo b && leb b hi

abbrev tail_byte : ℕ → Bool
tail_byte = in_range 0x80 0xbf

-- The range of the second byte, which depends on the first.
second_ok : ℕ → ℕ → Bool
second_ok a b =
    if leb a 0xdf
    then tail_byte b
    else in_range
        (if leb a 0xe0
          then 0xa0
          else if leb a 0xef
          then 0x80
          else if leb a 0xf0
          then 0x90
          else 0x80)
        (if leb a 0xec
          then 0xbf
          else if leb a 0xed
          then 0x9f
          else if leb a 0xf3
          then 0xbf
          else 0x8f)
        b

-- How many bytes a first byte asks for: 0 where no sequence begins with it.
seq_len : ℕ → ℕ
seq_len a =
    if ltb a 0x80
    then 1
    else if ltb a 0xc2
    then 0
    else if ltb a 0xe0
    then 2
    else if ltb a 0xf0
    then 3
    else if ltb a 0xf5
    then 4
    else 0

tails_ok : ℕ → Text → Bool
tails_ok zero s = true
tails_ok (suc n) [] = false
tails_ok (suc n) (b ∷ s) = tail_byte b && tails_ok n s

-- The number of bytes after the first in the sequence that begins here, if it is well formed.
pub first_rune : ℕ → Text → Option ℕ
unfolding second_ok seq_len tails_ok
first_rune a s = elim (seq_len a) [
  | zero ↦ none
  | suc zero ↦ some 0
  | suc (suc n) ↦ elim s [
    | [] ↦ none
    | b ∷ t ↦ if second_ok a b && tails_ok n t then some (suc n) else none
  ]
]

-- `skip` counts the bytes that belong to a sequence already seen.
valid_from : ℕ → Text → Bool
valid_from skip [] = true
valid_from (suc skip) (b ∷ s) = valid_from skip s
valid_from zero (b ∷ s) = elim (first_rune b s) [ none ↦ false | some n ↦ valid_from n s ]

unfoldable pub valid_string : Text → Bool
unfolding valid_from first_rune
valid_string s = valid_from 0 s

abbrev width_after : Option ℕ → ℕ
width_after none = 0
width_after (some n) = n

runes_from : ℕ → Text → ℕ
runes_from skip [] = 0
runes_from (suc skip) (b ∷ s) = runes_from skip s
runes_from zero (b ∷ s) = suc (runes_from (width_after (first_rune b s)) s)

-- A byte that begins no well-formed sequence counts as one rune.
unfoldable pub rune_count : Text → ℕ
unfolding runes_from first_rune
rune_count s = runes_from 0 s

runes_from-le : (skip : ℕ) (s : Text) → runes_from skip s ≤ length s
unfolding runes_from
runes_from-le zero [] = omega arith
runes_from-le (suc skip) [] = omega arith
runes_from-le (suc skip) (b ∷ s) = omega (arith, runes_from-le skip s)
runes_from-le zero (b ∷ s) = omega (arith, runes_from-le (width_after (first_rune b s)) s)

rune_count-le-length : (s : Text) → rune_count s ≤ length s
unfolding rune_count
rune_count-le-length s = runes_from-le 0 s

-- "né", then the same with its last byte cut off, and an overlong form.
valid_examples :
    (valid_string (0x6e ∷ 0xc3 ∷ 0xa9 ∷ []) ≡ true)
    × (valid_string (0x6e ∷ 0xc3 ∷ []) ≡ false)
    × (valid_string (0xe0 ∷ 0x80 ∷ 0x80 ∷ []) ≡ false)
    × (rune_count (0x6e ∷ 0xc3 ∷ 0xa9 ∷ 0xff ∷ []) ≡ 3)
unfolding valid_string rune_count
valid_examples = (refl, refl, refl, refl)
