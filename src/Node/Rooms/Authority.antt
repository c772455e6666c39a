-- ===== src/Node/Rooms/Authority.antt =====
-- Who can change a room.
use chirp.Prelude.{
  ◌<◌, ◌≡◌, ◌≢◌, refl, ◌∙◌, true, false, [], ◌∷◌, ◌++◌, Text, text_eq, text_eq→eq, text_eq_refl,
  Option, none, some, ok, All, arith, Option-cases, Bool-cases, Result-cases, inl, inr,
}
use chirp.Crypto.Aead.{Aead}
use chirp.Proto.Envelope.{Envelope, EventKind, join, leave, remove, rename, create}
use chirp.Store.Bolt.{Bolt}
use chirp.Store.Casing.{Casing}
use chirp.Store.Rows.{Room, Store}
use chirp.Store.Seals.{encrypt_string, decrypt_string}
use chirp.Store.Seals.Laws.{IsNonce, Unlocked, decrypt-encrypt_string}
use chirp.Store.Rooms.Removal.{rooms-delete_room}
use chirp.Store.Rooms.{known_state, put_room, delete_room, get_room, decrypt_room, update_room}
use chirp.Node.Members.Laws.{is_member-remove_peer}
use chirp.Node.Members.{is_member, remove_peer, sort_strings}
use chirp.Node.Rooms.{
  announced, take_create, on_create, on_join, on_remove, on_leave, on_rename, on_event,
  handle_room_event, or_same,
}

module _ ⦃bolt : Bolt⦄ ⦃casing : Casing⦄ ⦃a : Aead⦄ where
  -- A room stands under its own id.
  abbrev pub RoomsFiled : Store → Type 0
  RoomsFiled s = (id : Text) (r : Room) → bolt.get s.db.rooms id ≡ some r → r.id ≡ id

  on_event-other :
      (k : EventKind) (nonce me actor : Text) (e : Envelope) (r : Room) (s : Store)
      → get_room e.room s ≡ ok r
      → text_eq actor r.created_by ≡ false
      → k ≢ leave
      → on_event k nonce me actor e (ok r) s ≡ s
  unfolding on_event on_create take_create on_join on_remove on_rename
  on_event-other create nonce me actor e r s g o k = ground arith
  on_event-other join nonce me actor e r s g o k = ground arith
  on_event-other remove nonce me actor e r s g o k = ground arith
  on_event-other leave nonce me actor e r s g o k = absurd (k refl)
  on_event-other rename nonce me actor e r s g o k = ground arith
  on_event-other (EventKind.unknown t) nonce me actor e r s g o k = refl

  -- For a room that can be read, an event from a peer that is not its creator changes nothing at
  -- all in the store, unless it is a leave event, whatever actor the envelope names.
  pub handle_room_event-other :
      (nonce me actor : Text) (e : Envelope) (r : Room) (s : Store)
      → get_room e.room s ≡ ok r
      → actor ≢ r.created_by
      → e.room_event ≢ leave
      → handle_room_event nonce me actor e s ≡ s
  unfolding handle_room_event
  handle_room_event-other nonce me actor e r s g o k = rw g (
      on_event-other e.room_event nonce me actor e r s g
        (ground (arith, text_eq→eq actor r.created_by)) k)

  -- What GetRoom returns after a room is written.
  pub get_room-update_room :
      (nonce : Text) (r : Room) (s t : Store)
      → IsNonce nonce
      → Unlocked s.keys
      → All (λ b. b < 256) r.name
      → update_room nonce r s ≡ ok t
      → get_room r.id t ≡ ok (record r { state = known_state r.state })
  unfolding update_room get_room decrypt_room put_room
  get_room-update_room nonce r s t n u b h =
      elim (Result-cases (encrypt_string nonce s.keys r.name)) [
        | inr (x, e) ↦ absurd (ground arith)
        | inl (c, e) ↦ ground (
          arith,
          bolt.get-put s.db.rooms r.id r.id (record r { name = c }),
          text_eq_refl r.id,
          decrypt-encrypt_string nonce s.keys r.name c n u b e,
        )
      ]

  update_room-keys :
      (nonce : Text) (r : Room) (s t : Store) → update_room nonce r s ≡ ok t → t.keys ≡ s.keys
  unfolding update_room put_room
  update_room-keys nonce r s t h = ground (arith, Result-cases (encrypt_string nonce s.keys r.name))

  -- A readable room is the row with its name in the clear.
  get_room-row :
      (id : Text) (s : Store) (r : Room)
      → get_room id s ≡ ok r
      → (q : Room) × ((bolt.get s.db.rooms id ≡ some q)
          × (r.id ≡ q.id)
          × (r.created_by ≡ q.created_by)
          × (r.members ≡ q.members))
  unfolding get_room decrypt_room
  get_room-row id s r h = elim (Option-cases (bolt.get s.db.rooms id)) [
    | inl e ↦ absurd (ground arith)
    | inr (q, e) ↦ (q, ground (arith, Result-cases (decrypt_string s.keys q.name)))
  ]

  -- The row of a room is deleted, or its owner is the same.
  unfoldable pub OwnerKept : Room → Option Room → Type 0
  OwnerKept q none = Unit {0}
  OwnerKept q (some p) = p.created_by ≡ q.created_by

  OwnerKept-same : (q : Room) (o : Option Room) → o ≡ some q → OwnerKept q o
  unfolding OwnerKept
  OwnerKept-same q none h = tt
  OwnerKept-same q (some p) h = ground arith

  update-owner :
      (nonce id j : Text) (r q p : Room) (s : Store)
      → RoomsFiled s
      → bolt.get s.db.rooms id ≡ some p
      → r.id ≡ p.id
      → r.created_by ≡ p.created_by
      → bolt.get s.db.rooms j ≡ some q
      → OwnerKept q (bolt.get (or_same s (update_room nonce r s)).db.rooms j)
  unfolding OwnerKept or_same update_room put_room
  update-owner nonce id j r q p s f g i o h =
      elim (Result-cases (encrypt_string nonce s.keys r.name)) [
        | inr (x, e) ↦ rw e (OwnerKept-same q (bolt.get s.db.rooms j) h)
        | inl (c, e) ↦ elim (Bool-cases (text_eq r.id j)) [
          | inl k ↦
              rw (e, bolt.get-put s.db.rooms r.id j (record r { name = c }), k)
                (ground (arith, f id p g, text_eq→eq r.id j))
          | inr k ↦
              rw (e, bolt.get-put s.db.rooms r.id j (record r { name = c }), k)
                (OwnerKept-same q _ h)
        ]
      ]

  delete-owner :
      (id j : Text) (q : Room) (s : Store)
      → bolt.get s.db.rooms j ≡ some q
      → OwnerKept q (bolt.get (delete_room id s).db.rooms j)
  unfolding OwnerKept
  delete-owner id j q s h = elim (Bool-cases (text_eq id j)) [
    | inl k ↦ rw (rooms-delete_room id j s, k) tt
    | inr k ↦ rw (rooms-delete_room id j s, k) (OwnerKept-same q _ h)
  ]

  same-owner :
      (j : Text) (q : Room) (s : Store)
      → bolt.get s.db.rooms j ≡ some q
      → OwnerKept q (bolt.get s.db.rooms j)
  same-owner j q s h = OwnerKept-same q _ h

  -- An event for a room that can be read passes no room to another owner: afterwards each stored
  -- room is deleted or has the creator it had, if every room stands under its own id.
  handle_room_event-owner :
      (nonce me actor j : Text) (e : Envelope) (r q : Room) (s : Store)
      → RoomsFiled s
      → get_room e.room s ≡ ok r
      → bolt.get s.db.rooms j ≡ some q
      → OwnerKept q (bolt.get (handle_room_event nonce me actor e s).db.rooms j)
  unfolding handle_room_event on_event on_create take_create on_join on_remove on_leave on_rename
  handle_room_event-owner nonce me actor j e r q s f g h = rw g (go e.room_event)
    where
      row :
          (p : Room) × ((bolt.get s.db.rooms e.room ≡ some p)
            × (r.id ≡ p.id)
            × (r.created_by ≡ p.created_by)
            × (r.members ≡ p.members))
      row = get_room-row e.room s r g

      updated :
          (n : Room)
          → n.id ≡ r.id
          → n.created_by ≡ r.created_by
          → OwnerKept q (bolt.get (or_same s (update_room nonce n s)).db.rooms j)
      updated n i o =
          update-owner nonce e.room j n q row.0 s f row.1.0 (i ∙ row.1.1) (o ∙ row.1.2) h

      same : OwnerKept q (bolt.get s.db.rooms j)
      same = same-owner j q s h

      go :
          (k : EventKind) → OwnerKept q (bolt.get (on_event k nonce me actor e (ok r) s).db.rooms j)
      go create = ground (
        arith,
        same,
        updated (record r { name = e.room_name; members = announced me actor e }) refl refl,
      )
      go join = ground (
        arith,
        same,
        updated (record r { members = sort_strings (r.members ++ e.room_actor ∷ []) }) refl refl,
      )
      go remove = ground (
        arith,
        same,
        delete-owner e.room j q s h,
        updated (record r { members = remove_peer r.members e.room_actor }) refl refl,
      )
      go leave = ground (
        arith,
        same,
        delete-owner e.room j q s h,
        updated (record r { members = remove_peer r.members actor }) refl refl,
      )
      go rename = ground (arith, same, updated (record r { name = e.room_name }) refl refl)
      go (EventKind.unknown t) = same

  -- When the leave event of a room's creator is handled on another device it is no member there any
  -- more, and yet the rename event that it sends next is obeyed. Both writes succeed, the nonce is
  -- 12 bytes, and the two names of the room are bytes.
  pub departed_creator-renames :
      (nonce me actor : Text) (e f : Envelope) (r : Room) (s t u : Store)
      → IsNonce nonce
      → Unlocked s.keys
      → All (λ b. b < 256) r.name
      → All (λ b. b < 256) f.room_name
      → get_room e.room s ≡ ok r
      → r.id ≡ e.room
      → actor ≡ r.created_by
      → actor ≢ me
      → is_member r.members actor ≡ true
      → e.room_event ≡ leave
      → f.room_event ≡ rename
      → f.room ≡ e.room
      → update_room nonce (record r { members = remove_peer r.members actor }) s ≡ ok t
      → update_room nonce
          (record r {
            members = remove_peer r.members actor;
            name = f.room_name;
            state = known_state r.state;
          })
          t
        ≡ ok u
      → (handle_room_event nonce me actor e s ≡ t)
        × (is_member (remove_peer r.members actor) actor ≡ false)
        × (handle_room_event nonce me actor f t ≡ u)
        × (get_room e.room u
            ≡ ok (record r {
              members = remove_peer r.members actor;
              name = f.room_name;
              state = known_state (known_state r.state);
            }))
  unfolding handle_room_event on_event on_leave on_rename or_same
  departed_creator-renames nonce me actor e f r s t u n k b c g i o m w le re fr up vp =
      let kept : t.keys ≡ s.keys =
        update_room-keys nonce (record r { members = remove_peer r.members actor }) s t up in
      let got =
        get_room-update_room nonce (record r { members = remove_peer r.members actor }) s t n k b
          up in
      let last =
        get_room-update_room nonce
          (record r {
            members = remove_peer r.members actor;
            name = f.room_name;
            state = known_state r.state;
          })
          t u n (rw kept k) c vp in
      (
        ground (arith, text_eq→eq actor me),
        ground (arith, is_member-remove_peer r.members actor actor, casing.equal_fold_refl actor),
        ground (arith, got, text_eq_refl r.created_by),
        ground (arith, last),
      )
