-- ===== src/Proto/Frame.antt =====
-- WriteFrame and ReadFrame of internal/proto/proto.go, over a stream given by its bytes.
use chirp.Prelude.{
  ℕ, ◌+◌, ◌*◌, ◌/◌, ◌%◌, [], ◌∷◌, ◌++◌, Text, Result, ok, err, ◌>>=◌, ltb, leb, ◌==◌, length, take,
  drop, if◌then◌else◌,
}

-- ErrFrameTooLarge and ErrEmptyFrame; the other two are io.EOF and io.ErrUnexpectedEOF.
pub data FrameError : Type 0 where
  frame_too_large empty_frame eof unexpected_eof : FrameError

abbrev pub max_frame : ℕ
max_frame = 65535

-- binary.BigEndian.PutUint16(buf, uint16(n))
abbrev pub put_uint16 : ℕ → Text
put_uint16 n = (n % 65536 / 256) ∷ (n % 256) ∷ []

-- binary.BigEndian.Uint16
abbrev pub uint16 : Text → ℕ
uint16 (hi ∷ lo ∷ _) = hi * 256 + lo
uint16 _ = 0

-- The bytes that the one call of w.Write is given.
unfoldable pub write_frame : Text → Result FrameError Text
write_frame payload =
    if length payload == 0
    then err empty_frame
    else if ltb max_frame (length payload)
    then err frame_too_large
    else ok (put_uint16 (length payload) ++ payload)

-- io.ReadFull: n bytes and the rest of the stream, or the reason why there are too few.
unfoldable pub read_full : ℕ → Text → Result FrameError (Text × Text)
read_full n s =
    if leb n (length s)
    then ok (take n s, drop n s)
    else if length s == 0
    then err eof
    else err unexpected_eof

unfoldable pub read_frame : Text → Result FrameError (Text × Text)
unfolding read_full
read_frame r = do
  (hdr, rest) ← read_full 2 r
  let n = uint16 hdr
  if n == 0 then err empty_frame else read_full n rest
