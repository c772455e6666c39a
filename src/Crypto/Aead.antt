-- ===== src/Crypto/Aead.antt =====
-- golang.org/x/crypto/chacha20poly1305, which the program only calls. `seal` and `open` take the
-- key, the nonce and the text, with no additional data; New fails on a key that is not 32 bytes.
-- Bytes are sealed as bytes, 16 more than the text has.
use chirp.Prelude.{◌+◌, ◌≡◌, Text, Option, some, length, All, ◌<◌}

pub record Aead : Type 0 where
  pub seal : Text → Text → Text → Text
  pub open' : Text → Text → Text → Option Text
  pub open-seal : (key nonce text : Text) → open' key nonce (seal key nonce text) ≡ some text
  pub length-seal : (key nonce text : Text) → length (seal key nonce text) ≡ length text + 16
  pub seal-bytes :
      (key nonce text : Text) → All (λ b. b < 256) text → All (λ b. b < 256) (seal key nonce text)
