-- ===== src/Bytes/Base64.antt =====
-- base64.StdEncoding of Go's encoding/base64: EncodeToString and DecodeString.
use chirp.Prelude.{
  ℕ, ◌+◌, ◌-◌, ◌*◌, ◌/◌, ◌%◌, ◌<◌, ◌≡◌, refl, Bool, true, false, ◌&&◌, ◌||◌, [], ◌∷◌, Text, Option,
  none, some, ltb, leb, ◌==◌, All, arith, if◌then◌else◌,
}

symbol : ℕ → ℕ
symbol v =
    if ltb v 26
    then b'A' + v
    else if ltb v 52
    then b'a' + (v - 26)
    else if ltb v 62
    then b'0' + (v - 52)
    else if v == 62
    then b'+'
    else b'/'

value : ℕ → Option ℕ
value c =
    if leb b'A' c && leb c b'Z'
    then some (c - b'A')
    else if leb b'a' c && leb c b'z'
    then some (c - b'a' + 26)
    else if leb b'0' c && leb c b'9'
    then some (c - b'0' + 52)
    else if c == b'+'
    then some 62
    else if c == b'/'
    then some 63
    else none

unfoldable pub encode : Text → Text
unfolding symbol
encode [] = []
encode (a ∷ []) = symbol (a / 4) ∷ symbol (a % 4 * 16) ∷ b'=' ∷ b'=' ∷ []
encode (a ∷ b ∷ []) =
    symbol (a / 4) ∷ symbol (a % 4 * 16 + b / 16) ∷ symbol (b % 16 * 4) ∷ b'=' ∷ []
encode (a ∷ b ∷ c ∷ s) =
    symbol (a / 4)
    ∷ symbol (a % 4 * 16 + b / 16)
    ∷ symbol (b % 16 * 4 + c / 64)
    ∷ symbol (c % 64)
    ∷ encode s

-- The decoder skips line ends wherever they stand.
skip_newlines : Text → Text
skip_newlines [] = []
skip_newlines (c ∷ s) = let rest = skip_newlines s in if c == 10 || c == 13 then rest else c ∷ rest

one_byte : Option ℕ → Option ℕ → Option Text
one_byte (some a) (some b) = some ((a * 4 + b / 16) ∷ [])
one_byte _ _ = none

two_bytes : Option ℕ → Option ℕ → Option ℕ → Option Text
two_bytes (some a) (some b) (some c) = some ((a * 4 + b / 16) ∷ (b % 16 * 16 + c / 4) ∷ [])
two_bytes _ _ _ = none

three_bytes : Option ℕ → Option ℕ → Option ℕ → Option ℕ → Option Text → Option Text
three_bytes (some a) (some b) (some c) (some d) (some s) =
    some ((a * 4 + b / 16) ∷ (b % 16 * 16 + c / 4) ∷ (c % 4 * 64 + d) ∷ s)
three_bytes _ _ _ _ _ = none

is_nil : Text → Bool
is_nil [] = true
is_nil (c ∷ s) = false

-- Groups of four; padding ends the input.
groups : Text → Option Text
unfolding value one_byte two_bytes three_bytes is_nil
groups [] = some []
groups (a ∷ []) = none
groups (a ∷ b ∷ []) = none
groups (a ∷ b ∷ c ∷ []) = none
groups (a ∷ b ∷ c ∷ d ∷ s) =
    let more = three_bytes (value a) (value b) (value c) (value d) (groups s) in
    if d == b'='
    then (if is_nil s
        then (if c == b'='
            then one_byte (value a) (value b)
            else two_bytes (value a) (value b) (value c))
        else none)
    else more

unfoldable pub decode : Text → Option Text
unfolding groups skip_newlines
decode s = groups (skip_newlines s)

value-symbol : (v : ℕ) → v < 64 → value (symbol v) ≡ some v
unfolding symbol value
value-symbol v h = ground arith

symbol-plain :
    (v : ℕ)
    → v < 64
    → ((symbol v == 10) ≡ false) × ((symbol v == 13) ≡ false) × ((symbol v == b'=') ≡ false)
unfolding symbol
symbol-plain v h = ground arith

skip_symbol :
    (v : ℕ) (s : Text) → v < 64 → skip_newlines (symbol v ∷ s) ≡ symbol v ∷ skip_newlines s
unfolding skip_newlines
skip_symbol v s h = ground (arith, symbol-plain v h)

skip_newlines-encode : (s : Text) → All (λ b. b < 256) s → skip_newlines (encode s) ≡ encode s
unfolding encode
skip_newlines-encode [] h = unfold skip_newlines in refl
skip_newlines-encode (a ∷ []) h = ground (
  arith,
  skip_symbol (a / 4) (symbol (a % 4 * 16) ∷ b'=' ∷ b'=' ∷ []),
  skip_symbol (a % 4 * 16) (b'=' ∷ b'=' ∷ []),
  pad,
)
  where
    pad : skip_newlines (b'=' ∷ b'=' ∷ []) ≡ b'=' ∷ b'=' ∷ []
    pad = unfold skip_newlines in refl
skip_newlines-encode (a ∷ b ∷ []) h = ground (
  arith,
  skip_symbol (a / 4) (symbol (a % 4 * 16 + b / 16) ∷ symbol (b % 16 * 4) ∷ b'=' ∷ []),
  skip_symbol (a % 4 * 16 + b / 16) (symbol (b % 16 * 4) ∷ b'=' ∷ []),
  skip_symbol (b % 16 * 4) (b'=' ∷ []),
  pad,
)
  where
    pad : skip_newlines (b'=' ∷ []) ≡ b'=' ∷ []
    pad = unfold skip_newlines in refl
skip_newlines-encode (a ∷ b ∷ c ∷ s) h = ground (
  arith,
  skip_symbol (a / 4)
      (symbol (a % 4 * 16 + b / 16) ∷ symbol (b % 16 * 4 + c / 64) ∷ symbol (c % 64) ∷ encode s),
  skip_symbol (a % 4 * 16 + b / 16) (symbol (b % 16 * 4 + c / 64) ∷ symbol (c % 64) ∷ encode s),
  skip_symbol (b % 16 * 4 + c / 64) (symbol (c % 64) ∷ encode s),
  skip_symbol (c % 64) (encode s),
  skip_newlines-encode s h.1.1.1,
)

groups_four :
    (u v w x : ℕ) (s : Text)
    → u < 64
    → v < 64
    → w < 64
    → x < 64
    → groups (symbol u ∷ symbol v ∷ symbol w ∷ symbol x ∷ s)
      ≡ three_bytes (some u) (some v) (some w) (some x) (groups s)
unfolding groups
groups_four u v w x s hu hv hw hx = ground (
  arith,
  value-symbol u hu,
  value-symbol v hv,
  value-symbol w hw,
  value-symbol x hx,
  symbol-plain x hx,
)

groups-encode : (s : Text) → All (λ b. b < 256) s → groups (encode s) ≡ some s
unfolding encode three_bytes
groups-encode [] h = unfold groups in refl
groups-encode (a ∷ []) h =
    unfold groups in ground (arith, value-symbol (a / 4), value-symbol (a % 4 * 16))
groups-encode (a ∷ b ∷ []) h =
    unfold groups in
    ground (
      arith,
      value-symbol (a / 4),
      value-symbol (a % 4 * 16 + b / 16),
      value-symbol (b % 16 * 4),
      symbol-plain (b % 16 * 4),
    )
groups-encode (a ∷ b ∷ c ∷ s) h =
    unfold three_bytes in
    ground (
      arith,
      groups_four (a / 4) (a % 4 * 16 + b / 16) (b % 16 * 4 + c / 64) (c % 64) (encode s),
      groups-encode s h.1.1.1,
    )

-- Every byte string is read back from its base64 form.
pub decode-encode : (s : Text) → All (λ b. b < 256) s → decode (encode s) ≡ some s
unfolding decode
decode-encode s h = ground (arith, skip_newlines-encode s h, groups-encode s h)
