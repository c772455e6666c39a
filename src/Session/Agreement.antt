-- ===== src/Session/Agreement.antt =====
-- The two ends of one handshake of internal/session/session.go.
use chirp.Prelude.{
  ◌≡◌, [], ◌++◌, append_assoc, true, false, Text, Option, none, some, ok, length, arith,
}
use chirp.Identity.Names.{validate_name}
use chirp.Proto.Frame.{write_frame}
use chirp.Proto.FrameLaws.{read-write}
use chirp.Store.Casing.{Casing}
use chirp.Store.Meta.{Identity}
use chirp.Session.{Noise, Conn, local_version, accept_hello, or_bad_hello}
use chirp.Session.Handshake.{
  Xx, HelloJson, hello_of, local_caps, initiate, respond, write_step, read_step,
}

module _ ⦃noise : Noise⦄ ⦃xx : Xx⦄ where
  -- An exchange of which no message is lost: the three messages, what each end reads, the cipher
  -- states with the last message, and the states of the ends.
  pub record Exchange : Type 0 where
    pub first : Text
    pub second : Text
    pub third : Text
    pub reads_nothing : Text
    pub reads_reply : Text
    pub reads_hello : Text
    pub initiator_ends : Option (noise.Cipher × noise.Cipher)
    pub responder_ends : Option (noise.Cipher × noise.Cipher)
    pub i0 : xx.State
    pub i1 : xx.State
    pub i2 : xx.State
    pub i3 : xx.State
    pub r0 : xx.State
    pub r1 : xx.State
    pub r2 : xx.State
    pub r3 : xx.State

  -- `reply` and `hello` are the payloads of the second and the third message.
  abbrev pub Ran : Identity → Identity → Text → Text → Exchange → Type 0
  Ran a b reply hello run =
      (xx.begin true a.priv a.public ≡ some run.i0)
      × (xx.begin false b.priv b.public ≡ some run.r0)
      × (xx.write_message run.i0 [] ≡ some (run.first, none, run.i1))
      × (xx.read_message run.r0 run.first ≡ some (run.reads_nothing, none, run.r1))
      × (xx.write_message run.r1 reply ≡ some (run.second, none, run.r2))
      × (xx.read_message run.i1 run.second ≡ some (run.reads_reply, none, run.i2))
      × (xx.write_message run.i2 hello ≡ some (run.third, run.initiator_ends, run.i3))
      × (xx.read_message run.r2 run.third ≡ some (run.reads_hello, run.responder_ends, run.r3))

-- What XX is for: the payloads arrive, the ends have the same cipher states, and each has the static
-- key of the other.
pub record Authentic ⦃noise : Noise⦄ ⦃xx : Xx⦄ : Type 0 where
  pub agrees :
      (a b : Identity) (reply hello : Text) (run : Exchange)
      → Ran a b reply hello run
      → (run.reads_reply ≡ reply)
        × (run.reads_hello ≡ hello)
        × (run.responder_ends ≡ run.initiator_ends)
        × (xx.peer_static run.i3 ≡ b.public)
        × (xx.peer_static run.r3 ≡ a.public)

-- The session with an identity.
abbrev pub conn_with : Identity → Conn
conn_with id = record {
  remote_key = id.public;
  remote_name = id.name;
  remote_version = local_version;
  remote_caps = local_caps;
}

-- A valid name and key, and a hello that JSON carries.
abbrev pub Introduced : ⦃casing : Casing⦄ → ⦃json : HelloJson⦄ → Identity → Type 0
Introduced ⦃casing⦄ ⦃json⦄ id =
    (json.unmarshal (json.marshal (hello_of id)) ≡ some (hello_of id))
    × (validate_name id.name ≡ ok id.name)
    × (length id.public ≡ 32)

module _ ⦃noise : Noise⦄ ⦃xx : Xx⦄ ⦃casing : Casing⦄ ⦃json : HelloJson⦄ where
  accept_hello-conn_with :
      (id : Identity)
      → Introduced id
      → accept_hello (json.unmarshal (json.marshal (hello_of id))) id.public ≡ ok (conn_with id)
  unfolding accept_hello or_bad_hello
  accept_hello-conn_with id h = let (j, v, l) = h in ground arith

  -- Where no message of a handshake is lost and its frames can be written, both ends come to a
  -- session: each with the key, the name, the version and the capabilities of the other, the cipher
  -- that one end sends with being the one the other receives with, and what follows in the streams
  -- left. Names are valid, keys have 32 bytes, JSON carries the hellos, and the pattern XX delivers
  -- payloads, cipher states and static keys.
  pub handshake-agree :
      ⦃law : Authentic⦄ (a b : Identity) (run : Exchange) (c0 c1 : noise.Cipher)
      (first second third to_a to_b : Text)
      → Introduced a
      → Introduced b
      → Ran a b (json.marshal (hello_of b)) (json.marshal (hello_of a)) run
      → run.initiator_ends ≡ some (c0, c1)
      → write_frame run.first ≡ ok first
      → write_frame run.second ≡ ok second
      → write_frame run.third ≡ ok third
      → (initiate a (second ++ to_a)
          ≡ ok (record {
            conn = conn_with b;
            enc = c0;
            dec = c1;
            written = first ++ third;
            rest = to_a;
          }))
        × (respond b ((first ++ third) ++ to_b)
            ≡ ok (record { conn = conn_with a; enc = c1; dec = c0; written = second; rest = to_b }))
  unfolding initiate respond write_step read_step
  handshake-agree ⦃law⦄ a b run c0 c1 first second third to_a to_b ha hb ran ends f1 f2 f3 =
      let (p, q, es, sa, sb) =
        law.agrees a b (json.marshal (hello_of b)) (json.marshal (hello_of a)) run ran in
      let (e1, e2, e3, e4, e5, e6, e7, e8) = ran in
      let ka = accept_hello-conn_with a ha in
      let kb = accept_hello-conn_with b hb in
      let l1 = read-write run.first first (third ++ to_b) f1 in
      let l2 = read-write run.second second to_a f2 in
      let l3 = read-write run.third third to_b f3 in
      (ground arith, ground (arith, append_assoc first third to_b))
