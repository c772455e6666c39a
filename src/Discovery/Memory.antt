-- ===== src/Discovery/Memory.antt =====
-- internal/discovery/memory.go: the hub that stands in for a network. A channel holds 64 events, and
-- a send to a full one is dropped. The maps are lists; where the order of a range can be seen, it is
-- an argument.
use chirp.Prelude.{
  ℕ, suc, Bool, true, false, ◌==◌, List, [], ◌∷◌, ◌++◌, codes, ltb, length, if◌then◌else◌,
}
use chirp.Discovery.{Announcement, Peer, Event, itoa}

pub record Hub : Type 0 where
  pub next : ℕ
  pub announced : List (ℕ × Announcement)
  pub browsers : List (ℕ × List Event)

abbrev pub new_hub : Hub
new_hub = record { next = 0; announced = []; browsers = [] }

abbrev pub to_peer : Announcement → Peer
to_peer a = record { name = a.name; fp = a.fp; addrs = (codes "127.0.0.1:" ++ itoa a.port) ∷ [] }

abbrev pub event : Bool → Announcement → Event
event up a = record { up = up; peer = to_peer a }

unfoldable pub try_send : List Event → Event → List Event
try_send q e = if ltb (length q) 64 then q ++ (e ∷ []) else q

-- To all browsers but the one of this instance.
unfoldable pub tell_others : ℕ → Event → List (ℕ × List Event) → List (ℕ × List Event)
tell_others self e [] = []
tell_others self e ((bid, q) ∷ l) =
    (bid, if bid == self then q else try_send q e) ∷ tell_others self e l

unfoldable pub dropped : {A : Type 0} → ℕ → List (ℕ × A) → List (ℕ × A)
dropped id [] = []
dropped id ((n, a) ∷ l) = let rest = dropped id l in if n == id then rest else (n, a) ∷ rest

-- The instance that announces has the number of its browser, or 0.
unfoldable pub announce : ℕ → Announcement → Hub → ℕ × Hub
announce self a h = (
  suc h.next,
  record {
    next = suc h.next;
    announced = (suc h.next, a) ∷ h.announced;
    browsers = tell_others self (event true a) h.browsers;
  },
)

-- The context of an announcement ends.
unfoldable pub retire : ℕ → ℕ → Announcement → Hub → Hub
retire self id a h = record h {
  announced = dropped id h.announced;
  browsers = tell_others self (event false a) h.browsers;
}

unfoldable pub tell_each : List (ℕ × Announcement) → List Event → List Event
tell_each [] q = q
tell_each ((id, a) ∷ l) q = tell_each l (try_send q (event true a))

-- A new browser is told of what is announced, in the order in which the map is ranged over.
unfoldable pub browse : List (ℕ × Announcement) → Hub → ℕ × Hub
browse order h = (
  suc h.next,
  record h { next = suc h.next; browsers = (suc h.next, tell_each order []) ∷ h.browsers },
)

unfoldable pub stop_browsing : ℕ → Hub → Hub
stop_browsing id h = record h { browsers = dropped id h.browsers }
