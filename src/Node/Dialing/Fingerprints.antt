-- ===== src/Node/Dialing/Fingerprints.antt =====
-- Which fingerprints fpMatches of internal/node/node.go takes.
use chirp.Prelude.{
  All-take, ℕ, append-nil, ◌≤◌, ◌<◌, ◌≡◌, refl, ap, true, false, List, [], ◌∷◌, ◌++◌, Text, text_eq,
  text_eq_refl, text_eq→eq, length, take, length-take, All, arith, Bool-cases, inl, inr,
}
use chirp.Bytes.Hex.{IsDigit, encode-IsDigit}
use chirp.Identity.Fingerprint.{
  Sha256, fingerprint, fingerprint_groups, concat, groups-fingerprint, length-fingerprint,
}
use chirp.Store.Casing.{Casing}
use chirp.Node.Dialing.{segments, push, lowered, fp_matches}

segments-cons :
    (b : ℕ) (s g : Text) (gs : List Text)
    → IsDigit b
    → segments false s ≡ g ∷ gs
    → segments false (b ∷ s) ≡ (b ∷ g) ∷ gs
unfolding segments push
segments-cons b s g gs h e = ground arith

-- A part without separators is one segment, up to the separator after it or the end.
segments-part : (g s : Text) → All IsDigit g → segments false (g ++ 32 ∷ s) ≡ g ∷ segments false s
segments-part [] s h = unfold segments in refl
segments-part (b ∷ g) s h =
    segments-cons b (g ++ 32 ∷ s) g (segments false s) h.0 (segments-part g s h.1)

segments-whole : (b : ℕ) (g : Text) → All IsDigit (b ∷ g) → segments false (b ∷ g) ≡ (b ∷ g) ∷ []
segments-whole b [] h = unfold segments push in ground arith
segments-whole b (c ∷ g) h = segments-cons b (c ∷ g) (c ∷ g) [] h.0 (segments-whole c g h.1)

-- The groups as they are shown.
abbrev pub spaced : List Text → Text
spaced [] = []
spaced (g ∷ []) = g
spaced (g ∷ h ∷ gs) = g ++ 32 ∷ spaced (h ∷ gs)

abbrev IsGroup : Text → Type 0
IsGroup g = All IsDigit g × (1 ≤ length g)

groups-IsGroup : (s : Text) → All IsDigit s → All IsGroup (fingerprint_groups s)
unfolding fingerprint_groups
groups-IsGroup (a ∷ b ∷ c ∷ d ∷ s) h =
    (((h.0, (h.1.0, (h.1.1.0, (h.1.1.1.0, tt)))), omega arith), groups-IsGroup s h.1.1.1.1)
groups-IsGroup [] h = tt
groups-IsGroup (a ∷ []) h = tt
groups-IsGroup (a ∷ b ∷ []) h = tt
groups-IsGroup (a ∷ b ∷ c ∷ []) h = tt

module _ ⦃casing : Casing⦄ where
  -- ToLower leaves digits and lower-case letters as they are.
  abbrev pub KeepsDigits : Type 0
  KeepsDigits = (s : Text) → All IsDigit s → casing.to_lower s ≡ s

  lowered-spaced : (gs : List Text) → KeepsDigits → All IsGroup gs → lowered (spaced gs) ≡ concat gs
  unfolding lowered
  lowered-spaced [] k h = unfold segments in refl
  lowered-spaced ([] ∷ []) k h = absurd (omega (arith, h.0.1))
  lowered-spaced ((b ∷ g) ∷ []) k h = rw (segments-whole b g h.0.0, k (b ∷ g) h.0.0) refl
  lowered-spaced (g ∷ f ∷ gs) k h =
      rw (segments-part g (spaced (f ∷ gs)) h.0.0, k g h.0.0)
        (ap (λ t. g ++ t) (lowered-spaced (f ∷ gs) k h.1))

  lowered-digits : (s : Text) → KeepsDigits → All IsDigit s → lowered s ≡ s
  unfolding lowered
  lowered-digits [] k h = unfold segments in refl
  lowered-digits (b ∷ g) k h = rw (segments-whole b g h, k (b ∷ g) h) (append-nil (b ∷ g))

  fingerprint-IsDigit : ⦃sha : Sha256⦄ (key : Text) → All IsDigit (fingerprint key)
  unfolding fingerprint
  fingerprint-IsDigit ⦃sha⦄ key = encode-IsDigit (sha.sum256 key) (sha.sum256-bytes key)

  module _ ⦃sha : Sha256⦄ where
    -- The fingerprint of a key matches the key, and so does the fingerprint as it is shown, in
    -- groups with spaces between them, if ToLower keeps digits and lower-case letters.
    fp_matches-spaced :
        (key : Text)
        → KeepsDigits
        → (fp_matches (fingerprint key) key ≡ true)
          × (fp_matches (spaced (fingerprint_groups (fingerprint key))) key ≡ true)
    unfolding fp_matches
    fp_matches-spaced key k =
        let digits = fingerprint-IsDigit key in
        (
          rw (lowered-digits (fingerprint key) k digits) (text_eq_refl (fingerprint key)),
          rw
              (
                lowered-spaced (fingerprint_groups (fingerprint key)) k
                    (groups-IsGroup (fingerprint key) digits),
                (groups-fingerprint key).0,
              )
              (text_eq_refl (fingerprint key)),
        )

    -- A part of a fingerprint does not match.
    fp_matches-prefix :
        (n : ℕ) (key : Text)
        → KeepsDigits
        → n < 64
        → fp_matches (take n (fingerprint key)) key ≡ false
    unfolding fp_matches
    fp_matches-prefix n key k h =
        let cut = take n (fingerprint key) in
        rw (lowered-digits cut k (All-take IsDigit n (fingerprint key) (fingerprint-IsDigit key)))
          (elim (Bool-cases (text_eq cut (fingerprint key))) [
            | inr e ↦ e
            | inl e ↦ absurd (
                omega (
                  arith,
                  ap length (text_eq→eq cut (fingerprint key) e),
                  length-take n (fingerprint key),
                  length-fingerprint key,
                  h,
                ))
          ])
