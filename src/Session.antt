-- ===== src/Session.antt =====
-- internal/session/session.go, from the end of the handshake on: what a hello is taken for, Send and
-- Recv. The Noise cipher of github.com/flynn/noise and encoding/json are parameters.
pub mod Stream
pub mod Handshake
pub mod Agreement
use chirp.Prelude.{
  ℕ, zero, suc, ◌≡◌, Bool, true, false, not, List, [], ◌∷◌, ◌++◌, Text, text_eq, Option, none, some,
  Result, ok, err, ◌>>=◌, ◌>>◌, guard, wrap, ltb, ◌==◌, length, if◌then◌else◌, ◌||◌,
}
use chirp.Prelude.Int.{ℤ, pos, ltb_ℤ}
use chirp.Identity.Names.{NameError, validate_name}
use chirp.Proto.Frame.{FrameError, write_frame, read_frame}
use chirp.Proto.Envelope.{Envelope, Invalid, validate}
use chirp.Store.Casing.{Casing}

-- A cipher state counts the messages; the two ends of one direction begin with the same, and what
-- one encrypts the other decrypts while they are in step.
pub record Noise : Type 1 where
  pub Cipher : Type 0
  pub encrypt : Cipher → Text → Text × Cipher
  pub decrypt : Cipher → Text → Option (Text × Cipher)
  pub decrypt-encrypt :
      (c : Cipher) (plain : Text)
      → decrypt c (encrypt c plain).0 ≡ some (plain, (encrypt c plain).1)

-- json.Marshal of an envelope, and the strict decoder of Decode: none for what it refuses.
pub record Json : Type 0 where
  pub marshal : Envelope → Text
  pub unmarshal : Text → Option Envelope

pub data SessionError : Type 0 where
  frame : FrameError → SessionError
  invalid : Invalid → SessionError
  not_json authentication_failed bad_hello missing_static_key : SessionError
  handshake_failed handshake_incomplete : SessionError
  bad_name : NameError → SessionError

-- Versions are ints; that of a hello is what the peer says.
pub record Hello : Type 0 where
  pub v : ℤ
  pub name : Text
  pub caps : List Text

pub record Conn : Type 0 where
  pub remote_key : Text
  pub remote_name : Text
  pub remote_version : ℤ
  pub remote_caps : List Text

abbrev pub local_version : ℤ
local_version = pos 2

-- RemoteVersion of internal/proto/proto.go
abbrev pub negotiated : ℤ → ℤ → ℤ
negotiated mine theirs = if ltb_ℤ theirs mine then theirs else mine

unfoldable pub has_cap : List Text → Text → Bool
has_cap [] cap = false
has_cap (c ∷ l) cap = text_eq c cap || has_cap l cap

or_bad_hello : Option Hello → Result SessionError Hello
or_bad_hello none = err bad_hello
or_bad_hello (some h) = ok h

-- The hello of the peer and its static key, once both cipher states stand.
unfoldable pub accept_hello : ⦃casing : Casing⦄ → Option Hello → Text → Result SessionError Conn
unfolding or_bad_hello
accept_hello hello static = do
  h ← or_bad_hello hello
  name ← wrap bad_name (validate_name h.name)
  guard (length static == 32) missing_static_key
  ok (record {
    remote_key = static;
    remote_name = name;
    remote_version = negotiated local_version h.v;
    remote_caps = h.caps;
  })

module _ ⦃json : Json⦄ where
  -- Encode and Decode of internal/proto/proto.go
  unfoldable pub encode : Envelope → Result SessionError Text
  encode e = do wrap invalid (validate e); ok (json.marshal e)

  unfoldable pub or_not_json : Option Envelope → Result SessionError Envelope
  or_not_json none = err not_json
  or_not_json (some e) = ok e

  unfoldable pub decode : Text → Result SessionError Envelope
  decode b = do e ← or_not_json (json.unmarshal b); wrap invalid (validate e); ok e

  module _ ⦃noise : Noise⦄ where
    -- The bytes that are written, and the cipher state after.
    unfoldable pub send : Envelope → noise.Cipher → Result SessionError (Text × noise.Cipher)
    send e c = do
      plain ← encode e
      let ct : Text = (noise.encrypt c plain).0
      bytes ← wrap frame (write_frame ct)
      ok (bytes, (noise.encrypt c plain).1)

    unfoldable pub opened :
        Text → Option (Text × noise.Cipher) → Result SessionError (Envelope × Text × noise.Cipher)
    opened rest none = err authentication_failed
    opened rest (some (plain, c)) = do e ← decode plain; ok (e, rest, c)

    -- The envelope, the rest of the stream and the cipher state after.
    unfoldable pub recv : Text → noise.Cipher → Result SessionError (Envelope × Text × noise.Cipher)
    recv s c = do (ct, rest) ← wrap frame (read_frame s); opened rest (noise.decrypt c ct)

    -- One after another, as Send under its lock writes them.
    unfoldable pub send_each :
        List Envelope → noise.Cipher → Result SessionError (Text × noise.Cipher)
    send_each [] c = ok ([], c)
    send_each (e ∷ l) c = do (bytes, d) ← send e c; (more, f) ← send_each l d; ok (bytes ++ more, f)

    -- As many as are asked for.
    unfoldable pub recv_each :
        ℕ → Text → noise.Cipher → Result SessionError (List Envelope × Text × noise.Cipher)
    recv_each zero s c = ok ([], s, c)
    recv_each (suc n) s c = do
      (e, rest, d) ← recv s c
      (es, left, f) ← recv_each n rest d
      ok (e ∷ es, left, f)
