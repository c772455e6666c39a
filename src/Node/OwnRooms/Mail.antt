-- ===== src/Node/OwnRooms/Mail.antt =====
-- What the user does to a room (internal/node/rooms.go) leaves the messages to peers as they are.
use chirp.Prelude.{Bool, [], ◌∷◌, ◌++◌, Text, Result, ok, err, arith, Result-cases, inl, inr}
use chirp.Prelude.Int.{ℤ}
use chirp.Crypto.Aead.{Aead}
use chirp.Store.Bolt.{Bolt}
use chirp.Store.Casing.{Casing}
use chirp.Store.Rows.{Room, joined, Store}
use chirp.Store.Messages.Mail.{Apart}
use chirp.Store.Rooms.{get_room, update_room}
use chirp.Store.Rooms.Mail.{update_room-Apart, delete_room-Apart}
use chirp.Node.Members.{sort_strings}
use chirp.Node.OwnRooms.{
  without, own_room, left, rename_room, add_room_member, remove_room_member, leave_room,
  accept_room_invite, decline_room_invite,
}

module _ ⦃bolt : Bolt⦄ where
  -- What a call has stored, where it has succeeded.
  abbrev pub Leaves : {E A : Type 0} → Result E (A × Store) → Store → Type 0
  Leaves (ok (out, t)) s = Apart t.db s.db
  Leaves (err e) s = Unit {0}

  abbrev pub Stores : {E : Type 0} → Result E Store → Store → Type 0
  Stores (ok t) s = Apart t.db s.db
  Stores (err e) s = Unit {0}

module _ ⦃bolt : Bolt⦄ ⦃a : Aead⦄ where
  pub update_room-Stores : (nonce : Text) (r : Room) (s : Store) → Stores (update_room nonce r s) s
  update_room-Stores nonce r s = elim (Result-cases (update_room nonce r s)) [
    | inr (x, e) ↦ rw e tt
    | inl (t, e) ↦ rw e (update_room-Apart nonce r s t e)
  ]

  pub rename_room-Apart :
      (reaches : Text → Bool) (nonce : Text) (now : ℤ) (me id name : Text) (s : Store)
      → Leaves (rename_room reaches nonce now me id name s) s
  unfolding rename_room
  rename_room-Apart reaches nonce now me id name s = elim (Result-cases (own_room id me s)) [
    | inr (x, e) ↦ ground arith
    | inl (r, e) ↦ ground (arith, update_room-Stores nonce (record r { name = name }) s)
  ]

  module _ ⦃casing : Casing⦄ where
    pub add_room_member-Apart :
        (reaches : Text → Bool) (nonce : Text) (now : ℤ) (me id name : Text) (s : Store)
        → Leaves (add_room_member reaches nonce now me id name s) s
    unfolding add_room_member
    add_room_member-Apart reaches nonce now me id name s = elim (Result-cases (own_room id me s)) [
      | inr (x, e) ↦ ground arith
      | inl (r, e) ↦ ground (
        arith,
        update_room-Stores nonce (record r { members = sort_strings (r.members ++ name ∷ []) }) s,
      )
    ]

    pub remove_room_member-Apart :
        (reaches : Text → Bool) (nonce : Text) (now : ℤ) (me id name : Text) (s : Store)
        → Leaves (remove_room_member reaches nonce now me id name s) s
    unfolding remove_room_member
    remove_room_member-Apart reaches nonce now me id name s =
        elim (Result-cases (own_room id me s)) [
          | inr (x, e) ↦ ground arith
          | inl (r, e) ↦
              ground
                (arith, update_room-Stores nonce (record r { members = without name r.members }) s)
        ]

    pub leave_room-Apart :
        (reaches : Text → Bool) (nonce : Text) (now : ℤ) (me id : Text) (s : Store)
        → Leaves (leave_room reaches nonce now me id s) s
    unfolding leave_room
    leave_room-Apart reaches nonce now me id s = elim (Result-cases (get_room id s)) [
      | inr (x, e) ↦ ground arith
      | inl (r, e) ↦ ground (arith, update_room-Stores nonce (left me r) s, delete_room-Apart id s)
    ]

    pub accept_room_invite-Apart :
        (reaches : Text → Bool) (nonce : Text) (now : ℤ) (me id : Text) (s : Store)
        → Leaves (accept_room_invite reaches nonce now me id s) s
    unfolding accept_room_invite
    accept_room_invite-Apart reaches nonce now me id s = elim (Result-cases (get_room id s)) [
      | inr (x, e) ↦ ground arith
      | inl (r, e) ↦ ground (arith, update_room-Stores nonce (record r { state = joined }) s)
    ]

    pub decline_room_invite-Apart :
        (reaches : Text → Bool) (now : ℤ) (me id : Text) (s : Store)
        → Leaves (decline_room_invite reaches now me id s) s
    unfolding decline_room_invite
    decline_room_invite-Apart reaches now me id s = elim (Result-cases (get_room id s)) [
      | inr (x, e) ↦ ground arith
      | inl (r, e) ↦ ground (arith, delete_room-Apart id s)
    ]
