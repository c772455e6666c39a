-- ===== src/Proto/FrameLaws.antt =====
-- What the frames of `Frame` promise: a round trip in both directions, and every refusal.
use chirp.Prelude.{
  ℕ, ◌+◌, ◌*◌, ◌<◌, ◌≡◌, [], ◌∷◌, ◌++◌, Text, ok, All, length, length-append, length-take,
  take-append, drop-append, take-append-drop, arith,
}
use chirp.Proto.Frame.{put_uint16, write_frame, read_full, read_frame}

-- Reading exactly as many bytes as a list has, from that list and more.
read_full-append : (p rest : Text) → read_full (length p) (p ++ rest) ≡ ok (p, rest)
unfolding read_full
read_full-append p rest =
    ground (arith, length-append p rest, take-append p rest, drop-append p rest)

-- A frame that WriteFrame produces is read back by ReadFrame as the payload, and what follows it in
-- the stream is left for the next call.
pub read-write :
    (payload w rest : Text)
    → write_frame payload ≡ ok w
    → read_frame (w ++ rest) ≡ ok (payload, rest)
unfolding write_frame read_frame
read-write payload w rest h = ground (arith, read_full-append payload rest)

abbrev pub IsByte : ℕ → Type 0
IsByte b = b < 256

-- A read of n bytes that succeeds takes the first n bytes.
read_full-eq_ok :
    (n : ℕ) (s p rest : Text) → read_full n s ≡ ok (p, rest) → (length p ≡ n) × (p ++ rest ≡ s)
unfolding read_full
read_full-eq_ok n s p rest h = ground (arith, length-take n s, take-append-drop n s)

-- What ReadFrame takes off a stream of bytes is exactly what WriteFrame writes for the payload, and
-- the payload is one that WriteFrame accepts.
write-read :
    (s payload rest : Text)
    → All IsByte s
    → read_frame s ≡ ok (payload, rest)
    → (write_frame payload ≡ ok (put_uint16 (length payload) ++ payload))
      × (put_uint16 (length payload) ++ payload ++ rest ≡ s)
unfolding read_frame write_frame
write-read [] payload rest b h = ground arith
write-read (hi ∷ []) payload rest b h = ground arith
write-read (hi ∷ lo ∷ s) payload rest b h =
    ground (arith, read_full-eq_ok (hi * 256 + lo) s payload rest)
