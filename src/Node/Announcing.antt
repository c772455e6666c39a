-- ===== src/Node/Announcing.antt =====
-- What Start, Rename and Stop of internal/node/node.go and internal/node/views.go announce, over the
-- hub of internal/discovery/memory.go.
use chirp.Prelude.{ℕ, List, [], ◌∷◌}
use chirp.Discovery.{Announcement}
use chirp.Discovery.Memory.{Hub, announce, browse, retire, stop_browsing}

-- A node: the number of its browser, and what it has announced under its context.
pub record Announcer : Type 0 where
  pub self : ℕ
  pub hub : Hub
  pub running : List (ℕ × Announcement)

-- Rename announces under the context of the first announcement.
unfoldable pub announce_again : Announcement → Announcer → Announcer
announce_again a n =
    let (id, hub) = announce n.self a n.hub in record n { hub = hub; running = (id, a) ∷ n.running }

-- Start browses first; `order` is that in which Browse ranges over what is announced.
unfoldable pub start_announcing : List (ℕ × Announcement) → Announcement → Hub → Announcer
start_announcing order a h =
    let (self, hub) = browse order h in
    announce_again a (record { self = self; hub = hub; running = [] })

unfoldable pub retire_each : ℕ → List (ℕ × Announcement) → Hub → Hub
retire_each self [] h = h
retire_each self ((id, a) ∷ l) h = retire_each self l (retire self id a h)

-- Stop ends the contexts of what is running, in some order, and that of the node's own browser.
unfoldable pub stop_announcing : List (ℕ × Announcement) → Announcer → Hub
stop_announcing order n = stop_browsing n.self (retire_each n.self order n.hub)
