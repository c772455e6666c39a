-- ===== src/Session/Stream.antt =====
-- What one end sends, the other receives, in order: Send and Recv of internal/session/session.go.
use chirp.Prelude.{
  ◌≡◌, List, [], ◌∷◌, ◌++◌, append_assoc, Text, some, ok, length, All, arith, Result-cases, inl,
  inr,
}
use chirp.Proto.Frame.{write_frame}
use chirp.Proto.FrameLaws.{read-write}
use chirp.Proto.Envelope.{Envelope, validate}
use chirp.Session.{
  Noise, Json, encode, decode, or_not_json, opened, send, recv, send_each, recv_each,
}

module _ ⦃json : Json⦄ ⦃noise : Noise⦄ where
  -- JSON carries the envelope, which it does where its texts are UTF-8.
  abbrev pub Carried : Envelope → Type 0
  Carried e = json.unmarshal (json.marshal e) ≡ some e

  recv-send :
      (e : Envelope) (c d : noise.Cipher) (bytes rest : Text)
      → Carried e
      → send e c ≡ ok (bytes, d)
      → recv (bytes ++ rest) c ≡ ok (e, rest, d)
  unfolding send recv encode decode or_not_json opened
  recv-send e c d bytes rest j h = elim (Result-cases (validate e)) [
    | inr (x, v) ↦ absurd (ground arith)
    | inl (u, v) ↦
        let plain = json.marshal e in
        elim (Result-cases (write_frame (noise.encrypt c plain).0)) [
          | inr (x, w) ↦ absurd (ground arith)
          | inl (framed, w) ↦ ground (
            arith,
            read-write (noise.encrypt c plain).0 framed rest w,
            noise.decrypt-encrypt c plain,
            j,
          )
        ]
  ]

  -- The envelopes that are sent one after another are received on the other side in their order,
  -- and what follows in the stream is left. The two cipher states begin in step, and JSON carries
  -- each envelope.
  pub recv_each-send_each :
      (es : List Envelope) (c d : noise.Cipher) (bytes rest : Text)
      → All Carried es
      → send_each es c ≡ ok (bytes, d)
      → recv_each (length es) (bytes ++ rest) c ≡ ok (es, rest, d)
  unfolding send_each recv_each
  recv_each-send_each [] c d bytes rest j h = ground arith
  recv_each-send_each (e ∷ es) c d bytes rest j h = elim (Result-cases (send e c)) [
    | inr (x, s) ↦ absurd (ground arith)
    | inl ((first, c1), s) ↦ elim (Result-cases (send_each es c1)) [
      | inr (x, m) ↦ absurd (ground arith)
      | inl ((more, c2), m) ↦ ground (
        arith,
        append_assoc first more rest,
        recv-send e c c1 first (more ++ rest) j.0 s,
        recv_each-send_each es c1 c2 more rest j.1 m,
      )
    ]
  ]
