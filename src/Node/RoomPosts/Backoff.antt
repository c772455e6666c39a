-- ===== src/Node/RoomPosts/Backoff.antt =====
-- The backoff of flushRoomMember in internal/node/rooms.go.
use chirp.Prelude.{ℕ, ◌-◌, ◌≤◌, ◌≡◌, ◌↔◌, true, arith}
use chirp.Prelude.Int.{pos, minus}
use chirp.Store.Rows.{RoomMessage}
use chirp.Node.Dialing.{shift}
use chirp.Node.RoomPosts.{Timing, room_backoff, room_due}

shift-out : (d n : ℕ) → 64 ≤ n → shift d n ≡ pos 0
unfolding shift
shift-out d n h = ground arith

-- From the 65th attempt on, a room message is due exactly if its last attempt does not lie in the
-- future, however short the time since then.
pub room_due-always :
    (t : Timing) (m : RoomMessage) → 65 ≤ m.attempts → (room_due t m ≡ true) ↔ (m.last_try ≤ t.now)
unfolding room_due room_backoff minus
room_due-always t m h = rw (shift-out t.base (m.attempts - 1) (omega (arith, h))) (ground arith)
