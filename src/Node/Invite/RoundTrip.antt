-- ===== src/Node/Invite/RoundTrip.antt =====
-- What FormatInvite writes, ParseInvite reads.
use chirp.Prelude.{
  All-take, take-all, ◌≤◌, ◌≡◌, refl, ap, sym, ◌∙◌, true, false, [], ◌∷◌, ◌++◌, Text, text_eq, some,
  ok, ltb, length, take, length-take, append_assoc, All, arith, if◌then◌else◌,
}
use chirp.Bytes.Hex.{IsDigit}
use chirp.Bytes.Strings.{has_byte, IsPlain, has_byte-append, cut-append, split_host_port-join}
use chirp.Proto.Envelope.{is_empty}
use chirp.Node.Invite.{
  invite_prefix, all_lower_hex, or_bad, parse_address, parse_invite, format_invite,
}

all_lower_hex-digits : (s : Text) → All IsDigit s → all_lower_hex s ≡ true
unfolding all_lower_hex
all_lower_hex-digits [] h = refl
all_lower_hex-digits (b ∷ s) h = ground (arith, all_lower_hex-digits s h.1)

parse_address-parts :
    (host port fp : Text)
    → IsPlain host
    → IsPlain port
    → is_empty host ≡ false
    → is_empty port ≡ false
    → All IsDigit fp
    → 8 ≤ length fp
    → parse_address (host ++ 58 ∷ port, some fp) ≡ ok (host, port, fp)
unfolding parse_address or_bad
parse_address-parts host port [] h p e f d l = absurd (omega (arith, l))
parse_address-parts host port (b ∷ fp) h p e f d l =
    ground (arith, split_host_port-join host port h p, all_lower_hex-digits (b ∷ fp) d)

is_empty-append : (s t : Text) → is_empty s ≡ false → is_empty (s ++ t) ≡ false
is_empty-append [] t h = absurd (ground arith)
is_empty-append (b ∷ s) t h = refl

parse_invite-cut :
    (x y : Text)
    → has_byte 47 x ≡ false
    → is_empty x ≡ false
    → parse_invite (invite_prefix ++ (x ++ 47 ∷ y)) ≡ parse_address (x, some y)
unfolding parse_invite text_eq
parse_invite-cut x y h e = rw (is_empty-append x (47 ∷ y) e, cut-append 47 x y h) refl

short-take : (fp : Text) → (if ltb 16 (length fp) then take 16 fp else fp) ≡ take 16 fp
short-take fp = ground (arith, take-all 16 fp)

format_invite-cut :
    (host port fp : Text)
    → format_invite host port fp ≡ invite_prefix ++ ((host ++ 58 ∷ port) ++ 47 ∷ take 16 fp)
unfolding format_invite
format_invite-cut host port fp =
    ap (λ s. invite_prefix ++ (host ++ (58 ∷ (port ++ 47 ∷ s)))) (short-take fp)
    ∙ ap (λ s. invite_prefix ++ s) (sym (append_assoc host (58 ∷ port) (47 ∷ take 16 fp)))

-- An invite that FormatInvite writes is parsed to the same host and port and the first 16 digits of
-- the fingerprint. Host and port are not empty and have no colon, bracket or slash, and the
-- fingerprint has at least 8 lower-case hexadecimal digits and no other character.
pub parse-format_invite :
    (host port fp : Text)
    → IsPlain host
    → IsPlain port
    → has_byte 47 host ≡ false
    → has_byte 47 port ≡ false
    → is_empty host ≡ false
    → is_empty port ≡ false
    → All IsDigit fp
    → 8 ≤ length fp
    → parse_invite (format_invite host port fp) ≡ ok (host, port, take 16 fp)
unfolding has_byte
parse-format_invite host port fp h p sh sp e f d l =
    let address = host ++ 58 ∷ port in
    let short = take 16 fp in
    ap parse_invite (format_invite-cut host port fp)
    ∙ parse_invite-cut address short (ground (arith, has_byte-append 47 host (58 ∷ port)))
        (is_empty-append host (58 ∷ port) e)
    ∙ parse_address-parts host port short h p e f (All-take IsDigit 16 fp d)
        (omega (arith, length-take 16 fp, l))
