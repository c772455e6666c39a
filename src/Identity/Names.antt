-- ===== src/Identity/Names.antt =====
-- ValidateName of internal/identity/identity.go and PassphraseStrength of
-- internal/identity/backup.go. strings.TrimSpace is a function of `Casing`. A control character is a
-- byte of its own, as is every character of the first three classes.
use chirp.Prelude.{
  ℕ, ◌+◌, ◌-◌, ◌≤◌, ◌≡◌, Bool, true, false, ◌&&◌, ◌||◌, not, [], ◌∷◌, Text, Result, ok, ◌>>◌, guard,
  ltb, leb, ◌==◌, arith, Bool-cases, inl, inr, if◌then◌else◌,
}
use chirp.Bytes.Utf8.{in_range, rune_count}
use chirp.Store.Casing.{Casing}

pub data NameError : Type 0 where
  empty_name name_too_long control_characters : NameError

abbrev pub max_name_len : ℕ
max_name_len = 32

abbrev pub no_bytes : Text → Bool
no_bytes [] = true
no_bytes (b ∷ s) = false

unfoldable pub has_control : Text → Bool
has_control [] = false
has_control (b ∷ s) = ltb b 32 || b == 127 || has_control s

-- The checks of the trimmed name.
unfoldable pub checked_name : Text → Result NameError Text
checked_name name = do
  guard (not (no_bytes name)) empty_name
  guard (leb (rune_count name) max_name_len) name_too_long
  guard (not (has_control name)) control_characters
  ok name

module _ ⦃casing : Casing⦄ where
  unfoldable pub validate_name : Text → Result NameError Text
  validate_name name = checked_name (casing.trim_space name)

  -- A name that has been accepted is accepted as it is, and is short and free of control characters.
  validate_name-again :
      (name valid : Text)
      → casing.trim_space (casing.trim_space name) ≡ casing.trim_space name
      → validate_name name ≡ ok valid
      → (validate_name valid ≡ ok valid)
        × (no_bytes valid ≡ false)
        × (rune_count valid ≤ 32)
        × (has_control valid ≡ false)
  unfolding validate_name checked_name
  validate_name-again name valid t h = elim (Bool-cases (no_bytes (casing.trim_space name))) [
    | inl e ↦ absurd (ground arith)
    | inr e ↦ elim (Bool-cases (leb (rune_count (casing.trim_space name)) max_name_len)) [
      | inr l ↦ absurd (ground arith)
      | inl l ↦ elim (Bool-cases (has_control (casing.trim_space name))) [
        | inl c ↦ absurd (ground arith)
        | inr c ↦ ground arith
      ]
    ]
  ]

-- The classes of characters.
abbrev pub is_lower : ℕ → Bool
is_lower b = in_range 97 122 b

abbrev pub is_upper : ℕ → Bool
is_upper b = in_range 65 90 b

abbrev pub is_digit : ℕ → Bool
is_digit b = in_range 48 57 b

abbrev pub is_special : ℕ → Bool
is_special b = not (is_lower b) && not (is_upper b) && not (is_digit b)

unfoldable pub any_byte : (ℕ → Bool) → Text → Bool
any_byte f [] = false
any_byte f (b ∷ s) = f b || any_byte f s

abbrev pub bit : Bool → ℕ
bit true = 1
bit false = 0

abbrev pub length_score : ℕ → ℕ
length_score n = if leb 20 n then 3 else if leb 16 n then 2 else if leb 12 n then 1 else 0

unfoldable pub class_count : Text → ℕ
class_count pw =
    bit (any_byte is_lower pw)
    + bit (any_byte is_upper pw)
    + bit (any_byte is_digit pw)
    + bit (any_byte is_special pw)

-- The difference does not go below zero: a passphrase has a class.
unfoldable pub passphrase_strength : Text → ℕ
passphrase_strength pw =
    let n = rune_count pw in
    let score = length_score n + class_count pw - 1 in
    if n == 0 then 0 else if ltb 5 score then 5 else score

bit-le : (b : Bool) → bit b ≤ 1
bit-le true = omega arith
bit-le false = omega arith

class_count-le : (pw : Text) → class_count pw ≤ 4
unfolding class_count
class_count-le pw = omega (
  arith,
  bit-le (any_byte is_lower pw),
  bit-le (any_byte is_upper pw),
  bit-le (any_byte is_digit pw),
  bit-le (any_byte is_special pw),
)

-- The best score asks for sixteen characters of two classes.
passphrase_strength-five :
    (pw : Text) → 5 ≤ passphrase_strength pw → (16 ≤ rune_count pw) × (2 ≤ class_count pw)
unfolding passphrase_strength
passphrase_strength-five pw h = ground (arith, class_count-le pw)
