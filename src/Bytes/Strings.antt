-- ===== src/Bytes/Strings.antt =====
-- strings.Contains of one byte, strings.Cut, strings.LastIndexByte with the slices around it, and
-- net.SplitHostPort.
use chirp.Prelude.{
  ℕ, ◌≡◌, refl, Bool, false, ◌&&◌, ◌||◌, not, [], ◌∷◌, ◌++◌, Text, text_eq, Option, none, some,
  ◌==◌, drop, arith, Option-cases, inl, inr, if◌then◌else◌,
}

unfoldable pub has_byte : ℕ → Text → Bool
has_byte c [] = false
has_byte c (b ∷ s) = b == c || has_byte c s

-- What stands before the first c, and what stands after it, if there is one.
unfoldable pub cut : ℕ → Text → Text × Option Text
cut c [] = ([], none)
cut c (b ∷ s) =
    let (before, after) = cut c s in if b == c then ([], some s) else (b ∷ before, after)

-- What stands before and after the last c.
unfoldable pub last_cut : ℕ → Text → Option (Text × Text)
last_cut c [] = none
last_cut c (b ∷ s) = elim (last_cut c s) [
  | some (before, after) ↦ some (b ∷ before, after)
  | none ↦ if b == c then some ([], s) else none
]

abbrev pub starts_with : ℕ → Text → Bool
starts_with c [] = false
starts_with c (b ∷ s) = b == c

-- A host in brackets: the bracket closes just before the last colon.
bracketed : Text → Text → Text × Option Text → Option (Text × Text)
bracketed s port (inner, none) = none
bracketed s port (inner, some rest) =
    if text_eq rest (58 ∷ port) && not (has_byte 91 (drop 1 s)) && not (has_byte 93 rest)
    then some (drop 1 inner, port)
    else none

unfoldable pub split_host_port : Text → Option (Text × Text)
unfolding bracketed
split_host_port s = elim (last_cut 58 s) [
  | none ↦ none
  | some (host, port) ↦
      if starts_with 91 s
      then bracketed s port (cut 93 s)
      else if has_byte 58 host || has_byte 91 s || has_byte 93 s
      then none
      else some (host, port)
]

pub has_byte-append : (c : ℕ) (s t : Text) → has_byte c (s ++ t) ≡ (has_byte c s || has_byte c t)
unfolding has_byte
has_byte-append c [] t = refl
has_byte-append c (b ∷ s) t = ground (arith, has_byte-append c s t)

pub cut-append : (c : ℕ) (s t : Text) → has_byte c s ≡ false → cut c (s ++ c ∷ t) ≡ (s, some t)
unfolding cut has_byte
cut-append c [] t h = ground arith
cut-append c (b ∷ s) t h = ground (arith, cut-append c s t)

last_cut-none : (c : ℕ) (s : Text) → has_byte c s ≡ false → last_cut c s ≡ none
unfolding last_cut has_byte
last_cut-none c [] h = refl
last_cut-none c (b ∷ s) h = ground (arith, last_cut-none c s)

pub no_cut-has_byte : (c : ℕ) (s : Text) → last_cut c s ≡ none → has_byte c s ≡ false
unfolding last_cut has_byte
no_cut-has_byte c [] h = refl
no_cut-has_byte c (b ∷ s) h = elim (Option-cases (last_cut c s)) [
  | inl e ↦ ground (arith, no_cut-has_byte c s e)
  | inr ((front, back), e) ↦ absurd (ground arith)
]

pub last_cut-append :
    (c : ℕ) (s t : Text) → has_byte c t ≡ false → last_cut c (s ++ c ∷ t) ≡ some (s, t)
unfolding last_cut
last_cut-append c [] t h = ground (arith, last_cut-none c t h)
last_cut-append c (b ∷ s) t h = ground (arith, last_cut-append c s t h)

pub last_cut-after :
    (c : ℕ) (s before after : Text)
    → last_cut c s ≡ some (before, after)
    → (has_byte c after ≡ false) × (s ≡ before ++ c ∷ after)
unfolding last_cut has_byte
last_cut-after c [] before after h = absurd (ground arith)
last_cut-after c (b ∷ s) before after h = elim (Option-cases (last_cut c s)) [
  | inl e ↦ ground (arith, no_cut-has_byte c s e)
  | inr ((front, back), e) ↦ ground (arith, last_cut-after c s front back e)
]

starts_with-append :
    (host port : Text) → has_byte 91 host ≡ false → starts_with 91 (host ++ 58 ∷ port) ≡ false
unfolding has_byte
starts_with-append [] port h = refl
starts_with-append (b ∷ host) port h = ground arith

-- A host and a port without colons and brackets.
abbrev pub IsPlain : Text → Type 0
IsPlain s = (has_byte 58 s ≡ false) × (has_byte 91 s ≡ false) × (has_byte 93 s ≡ false)

pub split_host_port-join :
    (host port : Text)
    → IsPlain host
    → IsPlain port
    → split_host_port (host ++ 58 ∷ port) ≡ some (host, port)
unfolding split_host_port has_byte
split_host_port-join host port h p = ground (
  arith,
  last_cut-append 58 host port p.0,
  starts_with-append host port h.1,
  has_byte-append 91 host (58 ∷ port),
  has_byte-append 93 host (58 ∷ port),
)
