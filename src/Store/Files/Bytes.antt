-- ===== src/Store/Files/Bytes.antt =====
-- The bytes of a partial file against those of the file that the sender has.
use chirp.Prelude.{
  ℕ, zero, suc, ◌+◌, ◌≤◌, ◌≡◌, refl, ap, [], ◌∷◌, ◌++◌, Text, length, length-append, drop, arith,
}
use native.Mathlib.Nat.{zero-add, suc-add}
use chirp.Store.Files.{overwrite, write_at}

-- The two texts have `n` bytes at least, and the first `n` are the same.
abbrev pub Holds : ℕ → Text → Text → Type 0
Holds zero t src = Unit {0}
Holds (suc n) [] src = ⊥
Holds (suc n) (b ∷ t) [] = ⊥
Holds (suc n) (b ∷ t) (c ∷ src) = (b ≡ c) × Holds n t src

pub Holds-length : (n : ℕ) (t src : Text) → Holds n t src → (n ≤ length t) × (n ≤ length src)
Holds-length zero t src h = omega arith
Holds-length (suc n) [] src h = absurd h
Holds-length (suc n) (b ∷ t) [] h = absurd h
Holds-length (suc n) (b ∷ t) (c ∷ src) h = omega (arith, Holds-length n t src h.1)

pub Holds-le : (m n : ℕ) (t src : Text) → m ≤ n → Holds n t src → Holds m t src
Holds-le zero n t src le h = tt
Holds-le (suc m) zero t src le h = absurd (omega arith)
Holds-le (suc m) (suc n) [] src le h = absurd h
Holds-le (suc m) (suc n) (b ∷ t) [] le h = absurd h
Holds-le (suc m) (suc n) (b ∷ t) (c ∷ src) le h = (h.0, Holds-le m n t src (omega arith) h.1)

pub Holds-eq : (t src : Text) → Holds (length src) t src → length t ≤ length src → t ≡ src
Holds-eq [] [] h le = refl
Holds-eq (b ∷ t) [] h le = absurd (omega arith)
Holds-eq [] (c ∷ src) h le = absurd h
Holds-eq (b ∷ t) (c ∷ src) h le = ground (arith, Holds-eq t src h.1 (omega arith))

-- The bytes of a chunk are those of the source at its offset.
abbrev pub IsChunk : Text → ℕ → Text → Type 0
IsChunk src offset chunk = (rest : Text) × (drop offset src ≡ chunk ++ rest)

overwrite-Holds :
    (n : ℕ) (t chunk rest : Text)
    → Holds n t (chunk ++ rest)
    → Holds n (overwrite t chunk) (chunk ++ rest)
unfolding overwrite
overwrite-Holds zero t chunk rest h = tt
overwrite-Holds (suc n) [] chunk rest h = absurd h
overwrite-Holds (suc n) (b ∷ t) [] rest h = h
overwrite-Holds (suc n) (b ∷ t) (c ∷ chunk) rest h = (refl, overwrite-Holds n t chunk rest h.1)

overwrite-new : (t chunk rest : Text) → Holds (length chunk) (overwrite t chunk) (chunk ++ rest)
unfolding overwrite
overwrite-new t [] rest = tt
overwrite-new [] (c ∷ chunk) rest = (refl, overwrite-same chunk rest)
  where
    overwrite-same : (chunk rest : Text) → Holds (length chunk) chunk (chunk ++ rest)
    overwrite-same [] rest = tt
    overwrite-same (c ∷ chunk) rest = (refl, overwrite-same chunk rest)
overwrite-new (b ∷ t) (c ∷ chunk) rest = (refl, overwrite-new t chunk rest)

length-overwrite :
    (t chunk : Text) (n : ℕ) → length t ≤ n → length chunk ≤ n → length (overwrite t chunk) ≤ n
unfolding overwrite
length-overwrite t [] n h k = h
length-overwrite [] (c ∷ chunk) n h k = k
length-overwrite (b ∷ t) (c ∷ chunk) zero h k = absurd (omega arith)
length-overwrite (b ∷ t) (c ∷ chunk) (suc n) h k =
    omega (arith, length-overwrite t chunk n (omega arith) (omega arith))

-- Writing a chunk of the source keeps the bytes that are right.
pub write_at-Holds :
    (n offset : ℕ) (t src chunk : Text)
    → Holds n t src
    → IsChunk src offset chunk
    → Holds n (write_at t offset chunk) src
unfolding write_at
write_at-Holds n zero t src chunk h (rest, e) = rw e (overwrite-Holds n t chunk rest (rw e at h))
write_at-Holds zero (suc offset) t src chunk h k = tt
write_at-Holds (suc n) (suc offset) [] src chunk h k = absurd h
write_at-Holds (suc n) (suc offset) (b ∷ t) [] chunk h k = absurd h
write_at-Holds (suc n) (suc offset) (b ∷ t) (c ∷ src) chunk h k =
    (h.0, write_at-Holds n offset t src chunk h.1 k)

-- A chunk that starts where the bytes are right makes all up to its end right.
pub write_at-new :
    (offset : ℕ) (t src chunk : Text)
    → Holds offset t src
    → IsChunk src offset chunk
    → Holds (offset + length chunk) (write_at t offset chunk) src
unfolding write_at
write_at-new zero t src chunk h (rest, e) = rw (e, zero-add) (overwrite-new t chunk rest)
write_at-new (suc offset) [] src chunk h k = absurd h
write_at-new (suc offset) (b ∷ t) [] chunk h k = absurd h
write_at-new (suc offset) (b ∷ t) (c ∷ src) chunk h k =
    rw suc-add (h.0, write_at-new offset t src chunk h.1 k)

-- The file on disk grows no longer than the source.
pub length-write_at :
    (offset : ℕ) (t src chunk : Text)
    → Holds offset t src
    → length t ≤ length src
    → IsChunk src offset chunk
    → length (write_at t offset chunk) ≤ length src
unfolding write_at
length-write_at zero t src chunk h le (rest, e) =
    length-overwrite t chunk (length src) le (omega (arith, ap length e, length-append chunk rest))
length-write_at (suc offset) [] src chunk h le k = absurd h
length-write_at (suc offset) (b ∷ t) [] chunk h le k = absurd h
length-write_at (suc offset) (b ∷ t) (c ∷ src) chunk h le k =
    omega (arith, length-write_at offset t src chunk h.1 (omega arith) k)
