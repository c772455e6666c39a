-- ===== src/Node/Ticks/Flushed.antt =====
-- A tick of the outbox keeps rows, index and outbox together, and draws no number.
use chirp.Prelude.{refl, List, [], ◌∷◌, Text, text_eq, ok, err, arith, Bool-cases, inl, inr}
use chirp.Crypto.Aead.{Aead}
use chirp.Store.Bolt.{Bolt}
use chirp.Store.Casing.{Casing}
use chirp.Store.Rows.{Room, Store}
use chirp.Store.Errors.{Res}
use chirp.Store.Reads.{list_rooms}
use chirp.Store.Messages.Indexed.{Indexed}
use chirp.Store.Messages.Mail.{Apart, SameMail-Indexed}
use chirp.Node.Outbox
use chirp.Node.Outbox.{flush}
use chirp.Node.Outbox.Mail.{Flushes, flush-Flushes}
use chirp.Node.RoomPosts.{flush_room_member}
use chirp.Node.RoomPosts.Mail.{flush_room_member-Apart}
use chirp.Node.Ticks.{Tick, flush_names, flush_room, flush_rooms, rooms_tick, outbox_tick}

module _ ⦃bolt : Bolt⦄ ⦃casing : Casing⦄ ⦃a : Aead⦄ where
  flush_names-Flushes :
      (timing : Text → Outbox.Timing) (l : List Text) (s : Store)
      → Indexed s.db
      → Flushes s (flush_names timing l s)
  unfolding flush_names
  flush_names-Flushes timing [] s w = (w, refl, refl)
  flush_names-Flushes timing (name ∷ l) s w =
      let u = (flush (timing name) name s).store in
      let (i, e, p) = flush-Flushes (timing name) name s w in
      let (j, f, q) = flush_names-Flushes timing l u i in
      (j, ground (arith, e, f), ground (arith, p, q))

  flush_room-Apart :
      (t : Tick) (me room : Text) (l : List Text) (s : Store)
      → Apart (flush_room t me room l s).db s.db
  unfolding flush_room
  flush_room-Apart t me room [] s = ((refl, refl, refl, refl), refl)
  flush_room-Apart t me room (m ∷ l) s =
      let u = (flush_room_member t.room_timing t.reaches t.takes m room s).1 in
      elim (Bool-cases (text_eq m me)) [
        | inl e ↦ rw (e, flush_room) (flush_room-Apart t me room l s)
        | inr e ↦
            let more = flush_room-Apart t me room l u in
            let one = flush_room_member-Apart t.room_timing t.reaches t.takes m room s in
            rw (e, flush_room) (ground (arith, more, one))
      ]

  flush_rooms-Apart :
      (t : Tick) (me : Text) (l : List Room) (s : Store) → Apart (flush_rooms t me l s).db s.db
  unfolding flush_rooms
  flush_rooms-Apart t me [] s = ((refl, refl, refl, refl), refl)
  flush_rooms-Apart t me (r ∷ l) s = ground (
    arith,
    flush_rooms-Apart t me l (flush_room t me r.id r.members s),
    flush_room-Apart t me r.id r.members s,
  )

  rooms_tick-Apart :
      (t : Tick) (me : Text) (r : Res (List Room)) (s : Store) → Apart (rooms_tick t me r s).db s.db
  unfolding rooms_tick
  rooms_tick-Apart t me (err e) s = ((refl, refl, refl, refl), refl)
  rooms_tick-Apart t me (ok l) s = flush_rooms-Apart t me l s

  pub outbox_tick-Flushes :
      (t : Tick) (me : Text) (s : Store) → Indexed s.db → Flushes s (outbox_tick t me s)
  unfolding outbox_tick
  outbox_tick-Flushes t me s w =
      let u = flush_names t.timing t.names s in
      let (i, e, p) = flush_names-Flushes t.timing t.names s w in
      let h = rooms_tick-Apart t me (list_rooms u) u in
      (
        SameMail-Indexed (rooms_tick t me (list_rooms u) u).db u.db h.0 i,
        ground arith,
        ground arith,
      )
