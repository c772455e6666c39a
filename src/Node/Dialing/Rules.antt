-- ===== src/Node/Dialing/Rules.antt =====
-- The connection rule and the backoff of internal/node/node.go.
use chirp.Prelude.{
  ℕ, zero, suc, ◌+◌, ◌-◌, ◌*◌, ◌%◌, ◌≤◌, ◌<◌, ◌≡◌, true, false, ◌||◌, not, Bool, Text,
  text_ltb_asym, ltb, arith, if◌then◌else◌,
}
use chirp.Prelude.Int.{ℤ, pos, negsuc, pos_part, ltb_ℤ}
use chirp.Store.Casing.{Casing}
use chirp.Node.Dialing.{Nearby, dials, second, dial_done, backoff, jittered_backoff, shift}
use native.Mathlib.Nat.{mod-lt, zero-lt-suc}

module _ ⦃casing : Casing⦄ where
  -- Of two nodes at most one dials the other.
  dials-one_side :
      (t u : ℕ) (mine theirs : Text) (live live' : Text → Bool) (nb nb' : Nearby)
      → dials t mine live theirs nb ≡ true
      → dials u theirs live' mine nb' ≡ false
  unfolding dials
  dials-one_side t u mine theirs live live' nb nb' h = ground (arith, text_ltb_asym mine theirs)

backoff_value : (d : ℤ) (n max : ℕ) → ℕ
backoff_value d n max =
    if ltb n 1 || ltb_ℤ (pos max) d || not (ltb_ℤ (pos 0) d) then max else pos_part d

backoff_value-bounds :
    (d : ℤ) (n max : ℕ) → 0 < max → (1 ≤ backoff_value d n max) × (backoff_value d n max ≤ max)
unfolding backoff_value
backoff_value-bounds (pos d) n max m = ground arith
backoff_value-bounds (negsuc d) n max m = ground arith

backoff-bounds :
    (attempt base max : ℕ)
    → 0 < max
    → (1 ≤ backoff attempt base max) × (backoff attempt base max ≤ max)
unfolding backoff
backoff-bounds attempt base max m =
    let n = if ltb 16 attempt then 16 else attempt in
    unfold backoff_value in backoff_value-bounds (shift base (n - 1)) n max m

jitter-bounds : (random d : ℕ) → 1 ≤ d → (1 ≤ 1 + random % d) × (1 + random % d ≤ d)
jitter-bounds random zero h = absurd (omega (arith, h))
jitter-bounds random (suc d) h = omega (arith, mod-lt random (zero-lt-suc d))

jittered_backoff-bounds :
    (random attempt base max : ℕ)
    → 0 < max
    → (1 ≤ jittered_backoff random attempt base max)
      × (jittered_backoff random attempt base max ≤ max)
unfolding jittered_backoff
jittered_backoff-bounds random attempt base max m =
    ground
      (arith, backoff-bounds attempt base max m, jitter-bounds random (backoff attempt base max))

-- The next dial is later than now.
dial_done-later :
    (now tick random : ℕ) (ok : Bool) (nb : Nearby)
    → 0 < tick
    → ltb now (dial_done now tick random ok nb).next_dial ≡ true
unfolding dial_done
dial_done-later now tick random ok nb h =
    ground (arith, jittered_backoff-bounds random (suc nb.fails) second (30 * second))
