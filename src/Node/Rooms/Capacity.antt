-- ===== src/Node/Rooms/Capacity.antt =====
-- The size of a room.
use chirp.Prelude.{
  ◌≤◌, ◌≡◌, refl, ◌++◌, [], ◌∷◌, Text, some, ok, err, length, length-append, arith, Option-cases,
  Result-cases, inl, inr,
}
use chirp.Crypto.Aead.{Aead}
use chirp.Proto.Envelope.{Envelope, EventKind, join, leave, remove, rename, create}
use chirp.Store.Bolt.{Bolt}
use chirp.Store.Casing.{Casing}
use chirp.Store.Rows.{Room, Store}
use chirp.Store.Errors.{Res}
use chirp.Store.Seals.{encrypt_string, decrypt_string}
use chirp.Store.Rooms.Removal.{rooms-delete_room}
use chirp.Store.Rooms.{
  put_room, delete_room, get_room, decrypt_room, update_room, create_room, max_room_members,
}
use chirp.Node.Members.{remove_peer, sort_strings}
use chirp.Node.Members.Laws.{length-sort_strings, length-remove_peer}
use chirp.Node.Rooms.{
  invited, announced, take_create, on_create, on_join, on_remove, on_leave, on_rename, on_event,
  handle_room_event, or_same,
}

module _ ⦃bolt : Bolt⦄ ⦃casing : Casing⦄ ⦃a : Aead⦄ where
  -- No room has more than 32 members.
  unfoldable pub Fits : Store → Type 0
  Fits s =
      (j : Text) (q : Room) → bolt.get s.db.rooms j ≡ some q → length q.members ≤ max_room_members

  put_room-Fits :
      (r : Room) (s : Store) → Fits s → length r.members ≤ max_room_members → Fits (put_room r s)
  unfolding Fits put_room
  put_room-Fits r s f le j q h = ground (arith, bolt.get-put s.db.rooms r.id j r, f j q)

  delete_room-Fits : (id : Text) (s : Store) → Fits s → Fits (delete_room id s)
  unfolding Fits
  delete_room-Fits id s f j q h = ground (arith, rooms-delete_room id j s, f j q)

  update-Fits :
      (nonce : Text) (r : Room) (s : Store)
      → Fits s
      → length r.members ≤ max_room_members
      → Fits (or_same s (update_room nonce r s))
  unfolding or_same update_room
  update-Fits nonce r s f le = elim (Result-cases (encrypt_string nonce s.keys r.name)) [
    | inr (x, e) ↦ ground arith
    | inl (c, e) ↦ ground (arith, put_room-Fits (record r { name = c }) s f le)
  ]

  create-Fits :
      (nonce : Text) (r : Room) (s : Store) → Fits s → Fits (or_same s (create_room nonce r s))
  unfolding or_same create_room
  create-Fits nonce r s f = elim (Result-cases (encrypt_string nonce s.keys r.name)) [
    | inr (x, e) ↦ ground arith
    | inl (c, e) ↦ ground (arith, put_room-Fits (record r { name = c }) s f)
  ]

  get_room-members :
      (id : Text) (s : Store) (r : Room)
      → Fits s
      → get_room id s ≡ ok r
      → length r.members ≤ max_room_members
  unfolding Fits get_room decrypt_room
  get_room-members id s r f h = elim (Option-cases (bolt.get s.db.rooms id)) [
    | inl e ↦ absurd (ground arith)
    | inr (q, e) ↦ ground (arith, f id q e, Result-cases (decrypt_string s.keys q.name))
  ]

  -- If no stored room has more than 32 members, then none has after any event from any peer.
  pub handle_room_event-Fits :
      (nonce me actor : Text) (e : Envelope) (s : Store)
      → Fits s
      → Fits (handle_room_event nonce me actor e s)
  unfolding handle_room_event on_event on_create take_create on_join on_remove on_leave on_rename
  handle_room_event-Fits nonce me actor e s f = go e.room_event (get_room e.room s) refl
    where
      go :
          (k : EventKind) (o : Res Room)
          → get_room e.room s ≡ o
          → Fits (on_event k nonce me actor e o s)
      go create (err x) g =
          ground (arith, create-Fits nonce (invited actor e (announced me actor e)) s f)
      go create (ok r) g = ground (
        arith,
        update-Fits nonce (record r { name = e.room_name; members = announced me actor e }) s f,
      )
      go join (ok r) g = ground (
        arith,
        update-Fits nonce (record r { members = sort_strings (r.members ++ e.room_actor ∷ []) }) s
            f,
        length-sort_strings (r.members ++ e.room_actor ∷ []),
        length-append r.members (e.room_actor ∷ []),
      )
      go remove (ok r) g = ground (
        arith,
        get_room-members e.room s r f g,
        delete_room-Fits e.room s f,
        update-Fits nonce (record r { members = remove_peer r.members e.room_actor }) s f,
        length-remove_peer r.members e.room_actor,
      )
      go leave (ok r) g = ground (
        arith,
        get_room-members e.room s r f g,
        delete_room-Fits e.room s f,
        update-Fits nonce (record r { members = remove_peer r.members actor }) s f,
        length-remove_peer r.members actor,
      )
      go rename (ok r) g = ground (
        arith,
        get_room-members e.room s r f g,
        update-Fits nonce (record r { name = e.room_name }) s f,
      )
      go join (err x) g = f
      go remove (err x) g = f
      go leave (err x) g = f
      go rename (err x) g = f
      go (EventKind.unknown t) o g = f
