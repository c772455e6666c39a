-- ===== src/Session/Handshake.antt =====
-- handshake of internal/session/session.go, at the dialer (initiator) and at the listener (responder).
-- The handshake state of github.com/flynn/noise for the pattern XX is a parameter. The stream that an
-- end reads is an argument, and what it writes a result; what an end that fails has written, and the
-- deadline, are left out.
use chirp.Prelude.{
  Bool, true, false, List, [], ◌∷◌, ◌++◌, Text, codes, Option, none, some, Result, ok, err, ◌>>=◌,
  wrap,
}
use chirp.Proto.Frame.{write_frame, read_frame}
use chirp.Store.Casing.{Casing}
use chirp.Store.Meta.{Identity}
use chirp.Session.{
  Noise, SessionError, handshake_failed, handshake_incomplete, frame, Hello, Conn, local_version,
  accept_hello,
}

-- NewHandshakeState takes whether we are the initiator and our static key pair. WriteMessage and
-- ReadMessage give a text, the two cipher states with the last message, and the state after.
pub record Xx ⦃noise : Noise⦄ : Type 1 where
  pub State : Type 0
  pub begin : Bool → Text → Text → Option State
  pub write_message : State → Text → Option (Text × Option (noise.Cipher × noise.Cipher) × State)
  pub read_message : State → Text → Option (Text × Option (noise.Cipher × noise.Cipher) × State)
  pub peer_static : State → Text

-- json.Marshal and json.Unmarshal of a hello.
pub record HelloJson : Type 0 where
  pub marshal : Hello → Text
  pub unmarshal : Text → Option Hello

abbrev pub local_caps : List Text
local_caps =
    codes "files"
    ∷ codes "reactions"
    ∷ codes "receipts"
    ∷ codes "typing"
    ∷ codes "rooms"
    ∷ codes "resume"
    ∷ []

abbrev pub hello_of : Identity → Hello
hello_of id = record { v = local_version; name = id.name; caps = local_caps }

-- A session, with what was written for it and what of the stream is left.
pub record Joined ⦃noise : Noise⦄ : Type 0 where
  pub conn : Conn
  pub enc : noise.Cipher
  pub dec : noise.Cipher
  pub written : Text
  pub rest : Text

abbrev pub or_failed : {A : Type 0} → Option A → Result SessionError A
or_failed none = err handshake_failed
or_failed (some a) = ok a

abbrev pub or_incomplete : {A : Type 0} → Option A → Result SessionError A
or_incomplete none = err handshake_incomplete
or_incomplete (some a) = ok a

module _ ⦃noise : Noise⦄ ⦃xx : Xx⦄ where
  unfoldable pub write_step :
      xx.State → Text → Result SessionError (Text × Option (noise.Cipher × noise.Cipher) × xx.State)
  write_step s payload = do
    (m, cs, t) ← or_failed (xx.write_message s payload)
    bytes ← wrap frame (write_frame m)
    ok (bytes, cs, t)

  unfoldable pub read_step :
      xx.State
      → Text
      → Result SessionError (Text × Option (noise.Cipher × noise.Cipher) × xx.State × Text)
  read_step s stream = do
    (m, rest) ← wrap frame (read_frame stream)
    (payload, cs, t) ← or_failed (xx.read_message s m)
    ok (payload, cs, t, rest)

  module _ ⦃casing : Casing⦄ ⦃json : HelloJson⦄ where
    unfoldable pub initiate : Identity → Text → Result SessionError Joined
    unfolding write_step read_step
    initiate id stream = do
      s ← or_failed (xx.begin true id.priv id.public)
      (first, c, s1) ← write_step s []
      (hello, d, s2, rest) ← read_step s1 stream
      (last, cs, s3) ← write_step s2 (json.marshal (hello_of id))
      (c0, c1) ← or_incomplete cs
      conn ← accept_hello (json.unmarshal hello) (xx.peer_static s3)
      ok (record { conn = conn; enc = c0; dec = c1; written = first ++ last; rest = rest })

    unfoldable pub respond : Identity → Text → Result SessionError Joined
    unfolding write_step read_step
    respond id stream = do
      s ← or_failed (xx.begin false id.priv id.public)
      (nothing, c, s1, more) ← read_step s stream
      (reply, d, s2) ← write_step s1 (json.marshal (hello_of id))
      (hello, cs, s3, rest) ← read_step s2 more
      (c0, c1) ← or_incomplete cs
      conn ← accept_hello (json.unmarshal hello) (xx.peer_static s3)
      ok (record { conn = conn; enc = c1; dec = c0; written = reply; rest = rest })
