-- ===== src/Node/OwnInvite.antt =====
-- Invite, localAddresses and QRSVG of internal/node/qr.go: the invite of this device. The interfaces
-- of package net and the code that rsc.io/qr encodes are arguments.
pub mod Usable
use chirp.Prelude.{
  ℕ, zero, suc, ◌+◌, ◌-◌, ◌*◌, Bool, true, false, ◌||◌, not, List, [], ◌∷◌, ◌++◌, Text, codes,
  Option, none, some, ltb, if◌then◌else◌,
}
use chirp.Prelude.Int.{ℤ, pos, ltb_ℤ, pos_part}
use chirp.Discovery.{itoa}
use chirp.Node.Invite.{format_invite}

-- An address of an interface, if it is an IPv4 network: how it is printed, and what net.IP says.
pub record Ipv4 : Type 0 where
  pub text : Text
  pub is_loopback : Bool
  pub is_link_local : Bool
  pub is_private : Bool

-- none where Addrs fails.
pub record Interface : Type 0 where
  pub up : Bool
  pub loopback : Bool
  pub addrs : Option (List (Option Ipv4))

unfoldable pub usable : List (Option Ipv4) → List Ipv4
usable [] = []
usable (none ∷ l) = usable l
usable (some a ∷ l) =
    let rest = usable l in if a.is_loopback || a.is_link_local then rest else a ∷ rest

abbrev pub usable_of : Interface → List Ipv4
usable_of i = if not i.up || i.loopback then [] else elim i.addrs [ none ↦ [] | some l ↦ usable l ]

unfoldable pub all_usable : List Interface → List Ipv4
all_usable [] = []
all_usable (i ∷ l) = usable_of i ++ all_usable l

-- The texts of those that are private, or of the others.
unfoldable pub texts : Bool → List Ipv4 → List Text
texts private [] = []
texts private (a ∷ l) =
    let rest = texts private l in
    if a.is_private
    then (if private then a.text ∷ rest else rest)
    else (if private then rest else a.text ∷ rest)

-- none where Interfaces fails.
unfoldable pub local_addresses : Option (List Interface) → List Text
local_addresses none = []
local_addresses (some l) = texts true (all_usable l) ++ texts false (all_usable l)

-- A code of size × size modules.
pub record Code : Type 0 where
  pub size : ℕ
  pub black : ℕ → ℕ → Bool

abbrev pub quiet : ℕ
quiet = 4

-- M%d %dh%dv%dh-%dz
unfoldable pub square : ℕ → ℕ → ℕ → Text
square scale x y =
    codes "M"
    ++ itoa ((x + quiet) * scale)
    ++ codes " "
    ++ itoa ((y + quiet) * scale)
    ++ codes "h"
    ++ itoa scale
    ++ codes "v"
    ++ itoa scale
    ++ codes "h-"
    ++ itoa scale
    ++ codes "z"

-- The black modules of a row, of which `left` are still to come.
unfoldable pub row_path : ℕ → Code → ℕ → ℕ → Text
row_path scale code y zero = []
row_path scale code y (suc left) =
    let rest = row_path scale code y left in
    let x = code.size - suc left in if code.black x y then square scale x y ++ rest else rest

unfoldable pub path : ℕ → Code → ℕ → Text
path scale code zero = []
path scale code (suc left) =
    row_path scale code (code.size - suc left) code.size ++ path scale code left

abbrev pub scale_of : ℤ → ℕ
scale_of scale = if ltb_ℤ (pos 0) scale then pos_part scale else 8

abbrev pub drawn : ℕ → Code → Text
drawn scale code =
    let px = itoa ((code.size + quiet * 2) * scale) in
    codes "<svg xmlns=\"http://www.w3.org/2000/svg\" viewBox=\"0 0 "
    ++ px
    ++ codes " "
    ++ px
    ++ codes "\" width=\""
    ++ px
    ++ codes "\" height=\""
    ++ px
    ++ codes "\" role=\"img\" aria-label=\"Invite QR code\" shape-rendering=\"crispEdges\">"
    ++ codes "<rect width=\""
    ++ px
    ++ codes "\" height=\""
    ++ px
    ++ codes "\" fill=\"#fff\"/>"
    ++ codes "<path d=\""
    ++ path scale code code.size
    ++ codes "\" fill=\"#0C0C14\"/>"
    ++ codes "</svg>"

-- none where the text does not fit a code.
unfoldable pub qr_svg : (Text → Option Code) → Text → ℤ → Option Text
qr_svg encode text scale = elim (encode text) [
  | none ↦ none
  | some code ↦ some (drawn (scale_of scale) code)
]

pub record Invite : Type 0 where
  pub uri : Text
  pub host : Text
  pub port : Text
  pub fingerprint : Text
  pub addresses : List Text
  pub svg : Text

abbrev pub best : List Text → Text
best [] = codes "127.0.0.1"
best (a ∷ l) = a

unfoldable pub invite : (Text → Option Code) → Option (List Interface) → ℕ → Text → Option Invite
invite encode interfaces port my_fp =
    let addrs = local_addresses interfaces in
    let uri = format_invite (best addrs) (itoa port) my_fp in
    elim (qr_svg encode uri (pos 8)) [
      | none ↦ none
      | some svg ↦ some (record {
        uri = uri;
        host = best addrs;
        port = itoa port;
        fingerprint = my_fp;
        addresses = addrs;
        svg = svg;
      })
    ]
