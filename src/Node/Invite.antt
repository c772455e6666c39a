-- ===== src/Node/Invite.antt =====
-- Invitations to dial by hand: ParseInvite and FormatInvite of internal/node/invite.go.
pub mod RoundTrip
use chirp.Prelude.{
  ℕ, Bool, true, false, ◌&&◌, ◌||◌, not, [], ◌∷◌, ◌++◌, Text, codes, Option, none, some, Result, ok,
  err, ◌>>=◌, ◌>>◌, guard, leb, ltb, length, take, drop, if◌then◌else◌,
}
use chirp.Bytes.Strings.{cut, split_host_port}
use chirp.Proto.Envelope.{is_empty}
use chirp.Store.Rooms.{has_prefix}

-- One constructor for each error that ParseInvite returns.
pub data InviteError : Type 0 where
  bad_prefix empty_address missing_fingerprint short_fingerprint not_hex : InviteError
  bad_host_port empty_host empty_port : InviteError

abbrev pub invite_prefix : Text
invite_prefix = codes "chirp://add/"

abbrev pub min_fp_len : ℕ
min_fp_len = 8

abbrev pub max_preview_fp : ℕ
max_preview_fp = 16

abbrev pub lower_hex : ℕ → Bool
lower_hex c = leb 48 c && leb c 57 || leb 97 c && leb c 102

unfoldable pub all_lower_hex : Text → Bool
all_lower_hex [] = true
all_lower_hex (c ∷ s) = lower_hex c && all_lower_hex s

unfoldable pub or_bad : Option (Text × Text) → Result InviteError (Text × Text)
or_bad none = err bad_host_port
or_bad (some p) = ok p

-- What follows the prefix, cut at the first slash.
unfoldable pub parse_address : Text × Option Text → Result InviteError (Text × Text × Text)
parse_address (host_port, none) = err missing_fingerprint
parse_address (host_port, some fp) = do
  guard (not (is_empty fp)) missing_fingerprint
  guard (not (ltb (length fp) min_fp_len)) short_fingerprint
  guard (all_lower_hex fp) not_hex
  (host, port) ← or_bad (split_host_port host_port)
  guard (not (is_empty host)) empty_host
  guard (not (is_empty port)) empty_port
  ok (host, port, fp)

-- The host, the port and the prefix of the fingerprint.
unfoldable pub parse_invite : Text → Result InviteError (Text × Text × Text)
parse_invite uri = do
  guard (has_prefix uri invite_prefix) bad_prefix
  let rest = drop (length invite_prefix) uri
  guard (not (is_empty rest)) empty_address
  parse_address (cut 47 rest)

unfoldable pub format_invite : Text → Text → Text → Text
format_invite host port fp =
    let short = if ltb max_preview_fp (length fp) then take max_preview_fp fp else fp in
    invite_prefix ++ (host ++ (58 ∷ (port ++ 47 ∷ short)))
