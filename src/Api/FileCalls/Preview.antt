-- ===== src/Api/FileCalls/Preview.antt =====
-- What filePreview of internal/api/api.go shows.
use chirp.Prelude.{
  ◌≡◌, ◌⊎◌, codes, text_eq→eq, refl, true, Text, Option, none, some, ok, arith, Option-cases,
  Result-cases, Bool-cases, inl, inr,
}
use chirp.Bytes.Strings.{cut}
use chirp.Crypto.Aead.{Aead}
use chirp.Store.Bolt.{Bolt}
use chirp.Store.Casing.{Casing}
use chirp.Store.Rows.{File, FileStatus, complete, Dir, dir_in, dir_out}
use chirp.Store.Files.{find_file, file_data, is_status}
use chirp.Api.Answers.{Body, answer, fail}
use chirp.Api.Server.{Machine, World, vault_of}
use chirp.Api.FileCalls.{previewable, media_type, is_inbound, get_file, file_preview}

complete_only : (s : FileStatus) → is_status s complete ≡ true → s ≡ complete
complete_only complete h = refl
complete_only _ h = absurd (ground arith)

inbound_only : (d : Dir) → is_inbound d ≡ true → d ≡ dir_in
inbound_only dir_in h = refl
inbound_only dir_out h = absurd (ground arith)

-- A file that came from a peer and is complete.
abbrev pub HasArrived : Option File → Type 0
HasArrived none = ⊥
HasArrived (some f) = (f.dir ≡ dir_in) × (f.status ≡ complete)

-- The media types of PNG, JPEG, GIF and WebP.
abbrev pub IsRaster : Text → Type 0
IsRaster t =
    (t ≡ codes "image/png")
    ⊎ (t ≡ codes "image/jpeg")
    ⊎ (t ≡ codes "image/gif")
    ⊎ (t ≡ codes "image/webp")

previewable-IsRaster : (t : Text) → previewable t ≡ true → IsRaster t
previewable-IsRaster t h = ground (
  arith,
  text_eq→eq t (codes "image/png"),
  text_eq→eq t (codes "image/jpeg"),
  text_eq→eq t (codes "image/gif"),
  text_eq→eq t (codes "image/webp"),
)

module _ ⦃bolt : Bolt⦄ ⦃a : Aead⦄ ⦃casing : Casing⦄ where
  -- filePreview serves bytes only of a file that came from a peer and is complete, they are the
  -- decrypted content, and their type, which is what the content looks like and not what the peer
  -- says, is that of PNG, JPEG, GIF or WebP.
  pub file_preview-HasArrived :
      (w : World) (id type name content : Text) (m : Machine)
      → (file_preview w id m).0 ≡ answer 200 (Body.bytes type name content)
      → HasArrived (find_file (vault_of m) id)
        × (file_data id (vault_of m) ≡ ok content)
        × (type ≡ media_type (cut 59 (w.detect content)) (w.detect content))
        × IsRaster type
  unfolding file_preview get_file fail
  file_preview-HasArrived w id type name content m h =
      elim (Option-cases (find_file (vault_of m) id)) [
        | inl e ↦ absurd (ground arith)
        | inr (f, e) ↦ elim (Bool-cases (is_inbound f.dir)) [
          | inr d ↦ absurd (ground arith)
          | inl d ↦ elim (Bool-cases (is_status f.status complete)) [
            | inr s ↦ absurd (ground arith)
            | inl s ↦ elim (Result-cases (file_data id (vault_of m))) [
              | inr (x, b) ↦ absurd (ground arith)
              | inl (bytes, b) ↦
                  ground (
                    arith,
                    complete_only f.status s,
                    inbound_only f.dir d,
                    previewable-IsRaster type,
                  )
            ]
          ]
        ]
      ]
