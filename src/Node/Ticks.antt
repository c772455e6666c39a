-- ===== src/Node/Ticks.antt =====
-- One tick of outboxLoop of internal/node/node.go: the messages that wait for each live peer, then
-- the rooms' for each of their members. The names of the live peers come in the order in which Go's
-- map gives them. The files of the outbox are sent beside it, by flushFile.
pub mod Flushed
use chirp.Prelude.{ℕ, Bool, List, [], ◌∷◌, Text, text_eq, ok, err, if◌then◌else◌}
use chirp.Crypto.Aead.{Aead}
use chirp.Store.Bolt.{Bolt}
use chirp.Store.Casing.{Casing}
use chirp.Store.Rows.{Room, Store}
use chirp.Store.Errors.{Res}
use chirp.Store.Reads.{list_rooms}
use chirp.Node.Outbox
use chirp.Node.Outbox.{flush}
use chirp.Node.RoomPosts
use chirp.Node.RoomPosts.{flush_room_member}

-- What a tick finds: the live names, the clock and the jitter, and which names have a session that
-- speaks rooms and take what is written.
pub record Tick : Type 0 where
  pub names : List Text
  pub timing : Text → Outbox.Timing
  pub room_timing : RoomPosts.Timing
  pub reaches : Text → Bool
  pub takes : Text → Bool

module _ ⦃bolt : Bolt⦄ ⦃casing : Casing⦄ ⦃a : Aead⦄ where
  unfoldable pub flush_names : (Text → Outbox.Timing) → List Text → Store → Store
  flush_names timing [] s = s
  flush_names timing (name ∷ l) s = flush_names timing l (flush (timing name) name s).store

  -- The members of one room but ourselves.
  unfoldable pub flush_room : Tick → Text → Text → List Text → Store → Store
  flush_room t me room [] s = s
  flush_room t me room (m ∷ l) s =
      flush_room t me room l
        (if text_eq m me then s else (flush_room_member t.room_timing t.reaches t.takes m room s).1)

  unfoldable pub flush_rooms : Tick → Text → List Room → Store → Store
  flush_rooms t me [] s = s
  flush_rooms t me (r ∷ l) s = flush_rooms t me l (flush_room t me r.id r.members s)

  -- Rooms that cannot be listed are left for the next tick.
  unfoldable pub rooms_tick : Tick → Text → Res (List Room) → Store → Store
  rooms_tick t me (err e) s = s
  rooms_tick t me (ok l) s = flush_rooms t me l s

  unfoldable pub outbox_tick : Tick → Text → Store → Store
  outbox_tick t me s = let u = flush_names t.timing t.names s in rooms_tick t me (list_rooms u) u
