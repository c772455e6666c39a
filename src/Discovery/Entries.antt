-- ===== src/Discovery/Entries.antt =====
-- Announce and fromEntry of internal/discovery/mdns.go: the text records of a service. An entry has
-- its IPv4 addresses as they are printed, and its IPv6 addresses with whether they are link-local.
use chirp.Prelude.{
  Bool, ◌||◌, not, ◌==◌, List, [], ◌∷◌, ◌++◌, Text, codes, text_eq, Option, none, some, Result, ok,
  err, ltb, length, take, map, if◌then◌else◌,
}
use chirp.Prelude.Int.{ℤ, pos, ltb_ℤ, pos_part}
use chirp.Bytes.Strings.{cut}
use chirp.Proto.Envelope.{is_empty}
use chirp.Discovery.{Announcement, Peer, itoa, join_host_port}

pub data AnnounceError : Type 0 where
  fingerprint_too_short : AnnounceError

-- The instance name and the text records that Register is called with.
unfoldable pub announced_as : Announcement → Result AnnounceError (Text × List Text)
announced_as a =
    if ltb (length a.fp) 16
    then err fingerprint_too_short
    else ok (take 16 a.fp, codes "v=1" ∷ (codes "name=" ++ a.name) ∷ (codes "fp=" ++ a.fp) ∷ [])

pub record ServiceEntry : Type 0 where
  pub text : List Text
  pub port : ℤ
  pub ipv4 : List Text
  pub ipv6 : List (Text × Bool)

-- The value of a record with this key.
abbrev pub pair_value : Text → Text × Option Text → Option Text
pair_value key (k, none) = none
pair_value key (k, some v) = if text_eq k key then some v else none

-- A later record takes the place of an earlier one.
unfoldable pub find_value : Text → List Text → Option Text
find_value key [] = none
find_value key (kv ∷ l) = elim (find_value key l) [
  | some v ↦ some v
  | none ↦ pair_value key (cut 61 kv)
]

abbrev pub txt : List Text → Text → Text
txt l key = elim (find_value key l) [ none ↦ [] | some v ↦ v ]

unfoldable pub global_addrs : Text → List (Text × Bool) → List Text
global_addrs port [] = []
global_addrs port ((ip, link_local) ∷ l) =
    let rest = global_addrs port l in if link_local then rest else join_host_port ip port ∷ rest

abbrev pub addrs_of : ServiceEntry → List Text
addrs_of e =
    let port = itoa (pos_part e.port) in
    map (λ ip. join_host_port ip port) e.ipv4 ++ global_addrs port e.ipv6

-- none where a record is missing or wrong, the port is none, or no address can be used.
unfoldable pub from_entry : ServiceEntry → Option Peer
from_entry e =
    if not (text_eq (txt e.text (codes "v")) (codes "1"))
      || is_empty (txt e.text (codes "name"))
      || not (length (txt e.text (codes "fp")) == 64)
      || not (ltb_ℤ (pos 0) e.port)
      || ltb_ℤ (pos 65535) e.port
    then none
    else elim (addrs_of e) [
      | [] ↦ none
      | addr ∷ l ↦ some (record {
        name = txt e.text (codes "name");
        fp = txt e.text (codes "fp");
        addrs = addr ∷ l;
      })
    ]
