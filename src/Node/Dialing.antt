-- ===== src/Node/Dialing.antt =====
-- Who dials whom, and when: browseLoop, dialLoop, dialDone, backoff, jitteredBackoff and fpMatches
-- of internal/node/node.go. Durations are nanoseconds in int64: a shift or a product wraps at 2 ^ 64
-- and is read with its sign. `random` is the number that rand.Read draws.
pub mod Rules
pub mod Fingerprints
use chirp.Prelude.{
  ℕ, zero, suc, ◌+◌, ◌-◌, ◌*◌, ◌%◌, Bool, true, false, ◌&&◌, ◌||◌, not, List, [], ◌∷◌, ◌++◌, map,
  Text, text_eq, text_ltb, Option, none, some, ltb, leb, ◌==◌, if◌then◌else◌,
}
use chirp.Prelude.Int.{ℤ, pos, negsuc, ltb_ℤ, pos_part}
use chirp.Identity.Fingerprint.{Sha256, fingerprint, concat}
use chirp.Store.Casing.{Casing}

-- discovery.Peer, without the addresses.
pub record Found : Type 0 where
  pub name : Text
  pub fp : Text

pub record Nearby : Type 0 where
  pub peer : Found
  pub up : Bool
  pub seen : ℕ
  pub fails : ℕ
  pub next_dial : ℕ
  pub dialing : Bool

abbrev pub second : ℕ
second = 1000000000

-- An int64 from its 64 bits.
abbrev pub signed : ℕ → ℤ
signed n = if ltb n 9223372036854775808 then pos n else negsuc (18446744073709551615 - n)

unfoldable pub double : ℕ → ℕ → ℕ
double zero d = d
double (suc n) d = double n (d + d)

-- d << n for a count of n bits.
unfoldable pub shift : ℕ → ℕ → ℤ
shift d n = signed (if ltb n 64 then double n d % 18446744073709551616 else 0)

-- An attempt below 1 and a value that has wrapped give the maximum.
unfoldable pub backoff : ℕ → ℕ → ℕ → ℕ
backoff attempt base max =
    let n = if ltb 16 attempt then 16 else attempt in
    let d = shift base (n - 1) in
    if ltb n 1 || ltb_ℤ (pos max) d || not (ltb_ℤ (pos 0) d) then max else pos_part d

unfoldable pub jittered_backoff : ℕ → ℕ → ℕ → ℕ → ℕ
jittered_backoff random attempt base max =
    let d = backoff attempt base max in if d == 0 then 0 else 1 + random % d

-- A session that came about is tried again after a tick, a failure after a backoff.
unfoldable pub dial_done : ℕ → ℕ → ℕ → Bool → Nearby → Nearby
dial_done now tick random ok nb =
    if ok then record nb { dialing = false; fails = 0; next_dial = now + tick } else record nb {
      dialing = false;
      fails = suc nb.fails;
      next_dial = now + jittered_backoff random (suc nb.fails) second (30 * second);
    }

-- A peer that has not been announced for two minutes is taken to be gone.
unfoldable pub expired : ℕ → Nearby → Nearby
expired now nb =
    if nb.up && ltb (120 * second) (now - nb.seen) then record nb { up = false } else nb

module _ ⦃casing : Casing⦄ where
  -- Whether the loop dials the peer under this fingerprint; `live` says which names have a session.
  unfoldable pub dials : ℕ → Text → (Text → Bool) → Text → Nearby → Bool
  dials now mine live fp nb =
      nb.up
      && not nb.dialing
      && not (ltb now nb.next_dial)
      && text_ltb mine fp
      && not (live (casing.to_lower nb.peer.name))

  -- One turn of the loop over one peer.
  unfoldable pub dial_turn : ℕ → Text → (Text → Bool) → Text → Nearby → Bool × Nearby
  dial_turn now mine live fp nb =
      let n = expired now nb in
      if dials now mine live fp n then (true, record n { dialing = true }) else (false, n)

-- An announcement of our own is passed over; another is noted under its fingerprint.
unfoldable pub browsed : ℕ → Text → Found → Bool → (Text → Option Nearby) → Text → Option Nearby
browsed now mine p up nearby fp =
    if text_eq p.fp mine || not (text_eq p.fp fp) then nearby fp else elim (nearby fp) [
      | none ↦
          some (record { peer = p; up = up; seen = now; fails = 0; next_dial = 0; dialing = false })
      | some nb ↦ some (record nb { peer = p; up = up; seen = now })
    ]

-- The one-byte separators of a fingerprint: space, tab, colon and dash.
abbrev pub is_separator : ℕ → Bool
is_separator b = b == 32 || b == 9 || b == 58 || b == 45

starts_a0 : Text → Bool
starts_a0 [] = false
starts_a0 (b ∷ s) = b == 160

push : ℕ → List Text → List Text
push b [] = (b ∷ []) ∷ []
push b (g ∷ gs) = (b ∷ g) ∷ gs

-- What stands between the separators; c2 a0 is a no-break space, and `inside` its second byte.
unfoldable pub segments : Bool → Text → List Text
unfolding starts_a0 push
segments inside [] = []
segments true (b ∷ s) = segments false s
segments false (b ∷ s) =
    let rest = segments false s in
    let after = segments true s in
    if is_separator b
    then [] ∷ rest
    else if b == 194 && starts_a0 s
    then [] ∷ after
    else push b rest

module _ ⦃casing : Casing⦄ where
  -- ToLower rune by rune is ToLower of each part.
  unfoldable pub lowered : Text → Text
  lowered want = concat (map casing.to_lower (segments false want))

  unfoldable pub fp_matches : ⦃sha : Sha256⦄ → Text → Text → Bool
  fp_matches want key = text_eq (lowered want) (fingerprint key)
