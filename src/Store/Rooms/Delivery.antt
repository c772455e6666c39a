-- ===== src/Store/Rooms/Delivery.antt =====
-- Room messages: reactions and numbers.
use chirp.Prelude.{
  suc, ◌<◌, ◌≡◌, refl, false, ◌||◌, List, [], ◌∷◌, ◌++◌, Text, text_eq_refl, ok, append-nil, arith,
}
use chirp.Store.Bolt.{Bolt}
use chirp.Store.Casing.{Casing}
use chirp.Store.Rows.{RoomReaction, Db}
use chirp.Store.Rooms.{has_reaction, drop_reaction, toggled, room_seq_key, next_sender_seq}

module _ ⦃casing : Casing⦄ where
  has_reaction-append :
      (sender emoji : Text) (l m : List RoomReaction)
      → has_reaction sender emoji (l ++ m)
        ≡ (has_reaction sender emoji l || has_reaction sender emoji m)
  unfolding has_reaction
  has_reaction-append sender emoji [] m = refl
  has_reaction-append sender emoji (r ∷ l) m = ground (arith, has_reaction-append sender emoji l m)

  drop_reaction-append :
      (sender emoji : Text) (l m : List RoomReaction)
      → has_reaction sender emoji l ≡ false
      → drop_reaction sender emoji (l ++ m) ≡ l ++ drop_reaction sender emoji m
  unfolding has_reaction drop_reaction
  drop_reaction-append sender emoji [] m h = refl
  drop_reaction-append sender emoji (r ∷ l) m h =
      ground (arith, drop_reaction-append sender emoji l m)

  -- Adding a reaction that the sender has not given yet, and then toggling it again, gives back the
  -- reactions as they were.
  toggled-toggled :
      (sender emoji : Text) (l m : List RoomReaction)
      → has_reaction sender emoji l ≡ false
      → toggled sender emoji l ≡ ok m
      → toggled sender emoji m ≡ ok l
  unfolding toggled has_reaction drop_reaction
  toggled-toggled sender emoji l m h e = ground (
    arith,
    has_reaction-append sender emoji l (record { sender = sender; emoji = emoji } ∷ []),
    drop_reaction-append sender emoji l (record { sender = sender; emoji = emoji } ∷ []) h,
    casing.equal_fold_refl sender,
    text_eq_refl emoji,
    append-nil l,
  )

  module _ ⦃bolt : Bolt⦄ where
    -- Two calls of NextRoomSenderSeq for a sender in a room give successive numbers, as long as the
    -- first is below 2 ^ 64 - 1.
    next_sender_seq-next :
        (room sender : Text) (db : Db)
        → (next_sender_seq room sender db).0 < 18446744073709551615
        → (next_sender_seq room sender (next_sender_seq room sender db).1).0
          ≡ suc (next_sender_seq room sender db).0
    unfolding next_sender_seq
    next_sender_seq-next room sender db b = ground (
      arith,
      bolt.get-put db.room_seq (room_seq_key room sender) (room_seq_key room sender)
          ((next_sender_seq room sender db).0),
      text_eq_refl (room_seq_key room sender),
    )
