-- ===== src/Api/FileNames.antt =====
-- What sanitizeFilename of internal/api/api.go leaves of a name.
use chirp.Prelude.{
  ℕ, ◌≡◌, ◌≢◌, refl, false, ◌||◌, ◌∷◌, Text, codes, text_eq, text_eq_refl, arith, Option-cases,
  Bool-cases, inl, inr,
}
use chirp.Bytes.Strings.{has_byte, has_byte-append, last_cut, last_cut-after, no_cut-has_byte}
use chirp.Proto.Envelope.{is_empty}
use chirp.Api.{after_last, is_dots, sanitize_filename}

after_last-has_byte : (c : ℕ) (s : Text) → has_byte c (after_last c s) ≡ false
after_last-has_byte c s = elim (Option-cases (last_cut c s)) [
  | inl e ↦ rw (after_last, e) (no_cut-has_byte c s e)
  | inr ((before, after), e) ↦ rw (after_last, e) (last_cut-after c s before after e).0
]

-- Nothing that was not there comes in.
after_last-kept : (c d : ℕ) (s : Text) → has_byte d s ≡ false → has_byte d (after_last c s) ≡ false
after_last-kept c d s h = elim (Option-cases (last_cut c s)) [
  | inl e ↦ rw (after_last, e) h
  | inr ((before, after), e) ↦
      rw (after_last, e)
        (unfold has_byte in
          ground (arith, last_cut-after c s before after e, has_byte-append d before (c ∷ after)))
]

-- A sanitised file name has no slash and no backslash, is not empty, and is neither a dot nor two
-- dots.
pub sanitize_filename-Safe :
    (name : Text)
    → (has_byte 47 (sanitize_filename name) ≡ false)
      × (has_byte 92 (sanitize_filename name) ≡ false)
      × (is_empty (sanitize_filename name) ≡ false)
      × (sanitize_filename name ≢ codes ".")
      × (sanitize_filename name ≢ codes "..")
unfolding sanitize_filename has_byte text_eq
sanitize_filename-Safe name =
    let base = after_last 92 (after_last 47 name) in
    elim (Bool-cases (is_empty name || is_empty base || is_dots base)) [
      | inl h ↦ rw h (refl, refl, refl, ground arith, ground arith)
      | inr h ↦ rw h (
        after_last-kept 92 47 (after_last 47 name) (after_last-has_byte 47 name),
        after_last-has_byte 92 (after_last 47 name),
        ground arith,
        λ e. absurd (ground (arith, e, text_eq_refl (codes "."))),
        λ e. absurd (ground (arith, e, text_eq_refl (codes ".."))),
      )
    ]
