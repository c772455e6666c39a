-- ===== src/Discovery.antt =====
-- internal/discovery: what is announced of a node and what a browser finds. Of the packages zeroconf
-- and net, the registration of a service and the addresses of an entry are arguments.
pub mod Entries
pub mod Memory
pub mod EntryLaws
pub mod MemoryLaws
use chirp.Prelude.{
  ℕ, zero, suc, ◌+◌, ◌/◌, ◌%◌, Bool, ◌||◌, List, [], ◌∷◌, ◌++◌, Text, ltb, if◌then◌else◌,
}
use chirp.Bytes.Strings.{has_byte}

pub record Announcement : Type 0 where
  pub name : Text
  pub fp : Text
  pub port : ℕ

pub record Peer : Type 0 where
  pub name : Text
  pub fp : Text
  pub addrs : List Text

pub record Event : Type 0 where
  pub up : Bool
  pub peer : Peer

-- Decimal digits; a number has fewer than one more than its value.
unfoldable pub digits : ℕ → ℕ → Text
digits zero n = []
digits (suc fuel) n =
    let rest = digits fuel (n / 10) in
    if ltb n 10 then (48 + n) ∷ [] else rest ++ ((48 + n % 10) ∷ [])

-- strconv.Itoa of a natural number.
abbrev pub itoa : ℕ → Text
itoa n = digits (suc n) n

-- net.JoinHostPort: brackets around a host with a colon or a percent sign.
unfoldable pub join_host_port : Text → Text → Text
join_host_port host port =
    if has_byte 58 host || has_byte 37 host
    then 91 ∷ (host ++ (93 ∷ 58 ∷ port))
    else host ++ (58 ∷ port)
