-- ===== src/Bytes/Hex.antt =====
-- hex.EncodeToString and hex.DecodeString.
use chirp.Prelude.{
  ℕ, ◌+◌, ◌-◌, ◌*◌, ◌/◌, ◌%◌, ◌<◌, ◌≤◌, ◌⊎◌, ◌≡◌, refl, ◌&&◌, [], ◌∷◌, Text, Option, none, some,
  ltb, leb, length, All, arith, if◌then◌else◌,
}

hex_digit : ℕ → ℕ
hex_digit n = if ltb n 10 then b'0' + n else b'a' + (n - 10)

unfoldable pub encode_to_string : Text → Text
unfolding hex_digit
encode_to_string [] = []
encode_to_string (b ∷ s) = hex_digit (b / 16) ∷ hex_digit (b % 16) ∷ encode_to_string s

digit_value : ℕ → Option ℕ
digit_value c =
    if leb b'0' c && leb c b'9'
    then some (c - b'0')
    else if leb b'a' c && leb c b'f'
    then some (c - b'a' + 10)
    else if leb b'A' c && leb c b'F'
    then some (c - b'A' + 10)
    else none

join_digits : Option ℕ → Option ℕ → Option Text → Option Text
join_digits (some hi) (some lo) (some s) = some ((hi * 16 + lo) ∷ s)
join_digits _ _ _ = none

-- `none` where a byte is no digit or the length is odd.
unfoldable pub decode_string : Text → Option Text
unfolding digit_value join_digits
decode_string [] = some []
decode_string (a ∷ []) = none
decode_string (a ∷ b ∷ s) = join_digits (digit_value a) (digit_value b) (decode_string s)

hex_digit-value : (n : ℕ) → n < 16 → digit_value (hex_digit n) ≡ some n
unfolding hex_digit digit_value
hex_digit-value n h = ground arith

-- Every byte string is read back from its hexadecimal form.
pub decode-encode : (s : Text) → All (λ b. b < 256) s → decode_string (encode_to_string s) ≡ some s
unfolding decode_string encode_to_string
decode-encode [] h = refl
decode-encode (b ∷ s) h =
    ground (arith, hex_digit-value (b / 16), hex_digit-value (b % 16), decode-encode s h.1)

pub length-encode : (s : Text) → length (encode_to_string s) ≡ 2 * length s
unfolding encode_to_string
length-encode [] = omega arith
length-encode (b ∷ s) = omega (arith, length-encode s)

-- A lower-case hexadecimal digit.
abbrev pub IsDigit : ℕ → Type 0
IsDigit b = ((48 ≤ b) × (b < 58)) ⊎ ((97 ≤ b) × (b < 103))

hex_digit-IsDigit : (n : ℕ) → n < 16 → IsDigit (hex_digit n)
unfolding hex_digit
hex_digit-IsDigit n h = ground arith

pub encode-IsDigit : (s : Text) → All (λ b. b < 256) s → All IsDigit (encode_to_string s)
unfolding encode_to_string
encode-IsDigit [] h = tt
encode-IsDigit (b ∷ s) h = (
  hex_digit-IsDigit (b / 16) (omega (arith, h.0)),
  (hex_digit-IsDigit (b % 16) (omega arith), encode-IsDigit s h.1),
)
