-- ===== src/Node/OwnInvite/Usable.antt =====
-- What another device makes of the invite of internal/node/qr.go.
use chirp.Prelude.{
  ℕ, zero, suc, ◌+◌, ◌/◌, ◌%◌, ◌<◌, ◌≤◌, ◌≡◌, ◌⊎◌, refl, true, false, List, [], ◌∷◌, ◌++◌, Text,
  Option, some, ok, length, take, All, arith, ltb, Bool-cases, Option-cases, inl, inr, ◌==◌,
}
use chirp.Prelude.Int.{pos}
use chirp.Bytes.Hex.{IsDigit}
use chirp.Bytes.Strings.{IsPlain, has_byte, has_byte-append}
use chirp.Proto.Envelope.{is_empty}
use chirp.Discovery.{digits, itoa}
use chirp.Node.Invite.{parse_invite, format_invite}
use chirp.Node.Invite.RoundTrip.{parse-format_invite}
use chirp.Node.OwnInvite.{Code, Interface, Invite, invite, local_addresses, best, qr_svg}

-- An address as an IPv4 address is printed: with digits and dots, and so without colons, brackets
-- and slashes.
abbrev pub IsPrinted : Text → Type 0
IsPrinted s = IsPlain s × (has_byte 47 s ≡ false) × (is_empty s ≡ false)

-- A byte that is no decimal digit.
abbrev IsOther : ℕ → Type 0
IsOther c = (ltb c 48 ≡ true) ⊎ (ltb 57 c ≡ true)

other_byte : (c d : ℕ) → IsOther c → d < 10 → (48 + d == c) ≡ false
other_byte c d o h = ground arith

digits-has_byte : (c fuel n : ℕ) → IsOther c → has_byte c (digits fuel n) ≡ false
unfolding digits has_byte
digits-has_byte c zero n o = refl
digits-has_byte c (suc fuel) n o = elim (Bool-cases (ltb n 10)) [
  | inl y ↦ rw y (ground (arith, other_byte c n o))
  | inr y ↦
      let last : n % 10 < 10 = omega arith in
      rw (y, has_byte-append c (digits fuel (n / 10)) ((48 + n % 10) ∷ []))
        (ground (arith, digits-has_byte c fuel (n / 10) o, other_byte c (n % 10) o last))
]

best-IsPrinted : (l : List Text) → All IsPrinted l → IsPrinted (best l)
unfolding has_byte
best-IsPrinted [] h = ((refl, refl, refl), refl, refl)
best-IsPrinted (a ∷ l) h = h.0

is_empty-append : (s t : Text) → is_empty t ≡ false → is_empty (s ++ t) ≡ false
is_empty-append [] t h = h
is_empty-append (b ∷ s) t h = refl

digits_one : (fuel n : ℕ) → is_empty (digits (suc fuel) n) ≡ false
unfolding digits
digits_one fuel n = elim (Bool-cases (ltb n 10)) [
  | inl y ↦ rw y refl
  | inr y ↦ rw y (is_empty-append (digits fuel (n / 10)) ((48 + n % 10) ∷ []) refl)
]

itoa-IsPrinted : (n : ℕ) → IsPrinted (itoa n)
itoa-IsPrinted n = (
  (
    digits-has_byte 58 (suc n) n (inr refl),
    digits-has_byte 91 (suc n) n (inr refl),
    digits-has_byte 93 (suc n) n (inr refl),
  ),
  digits-has_byte 47 (suc n) n (inl refl),
  digits_one n n,
)

-- The invite of a device is parsed by another to the host and the port that it names and the first
-- 16 digits of its fingerprint, and it lists the addresses found. These are printed without colons,
-- brackets and slashes, and the fingerprint has at least 8 lower-case hexadecimal digits and no
-- other character.
pub invite-parse_invite :
    (encode : Text → Option Code) (interfaces : Option (List Interface)) (port : ℕ) (fp : Text)
    (i : Invite)
    → All IsPrinted (local_addresses interfaces)
    → All IsDigit fp
    → 8 ≤ length fp
    → invite encode interfaces port fp ≡ some i
    → (parse_invite i.uri ≡ ok (i.host, i.port, take 16 i.fingerprint))
      × (i.fingerprint ≡ fp)
      × (i.addresses ≡ local_addresses interfaces)
unfolding invite
invite-parse_invite encode interfaces port fp i printed hex long h =
    let addrs = local_addresses interfaces in
    let host = best addrs in
    let (plain, slash, some_text) = best-IsPrinted addrs printed in
    let (port_plain, port_slash, port_text) = itoa-IsPrinted port in
    let back =
      parse-format_invite host (itoa port) fp plain port_plain slash port_slash some_text port_text
        hex long in
    elim (Option-cases (qr_svg encode (format_invite host (itoa port) fp) (pos 8))) [
      | inl e ↦ absurd (ground arith)
      | inr (svg, e) ↦ ground (arith, back)
    ]
