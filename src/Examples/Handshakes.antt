-- ===== src/Examples/Handshakes.antt =====
-- A handshake of two ends, with a pattern of three messages that carry the keys in plain.
use chirp.Prelude.{
  ℕ, ◌≡◌, ◌++◌, refl, [], ◌∷◌, Text, codes, none, some, ok, Option, length, replicate, take, drop,
  arith, take-append, drop-append,
}
use chirp.Proto.Frame.{write_frame}
use chirp.Identity.Names.{validate_name, checked_name, has_control}
use chirp.Bytes.Utf8.{rune_count}
use chirp.Store.Meta.{Identity}
use chirp.Session.{local_version}
use chirp.Session.Handshake.{Xx, HelloJson, Joined, initiate, respond, local_caps}
use chirp.Session.Agreement.{Exchange, Authentic, Introduced, conn_with, handshake-agree}
use chirp.Examples.Setup.{ascii_casing}
use chirp.Examples.Secrets.{counted}
use chirp.Examples.Data.{ann, bo}

data Phase : Type 0 where
  begun replied last finished : Phase

record Half : Type 0 where
  phase : Phase
  mine : Text
  theirs : Text

abbrev put_half : Half → Text → Option (Text × Option (ℕ × ℕ) × Half)
put_half h payload = elim h.phase [
  | begun ↦ some (1 ∷ [], none, record h { phase = replied })
  | replied ↦ some (length h.mine ∷ (h.mine ++ payload), none, record h { phase = last })
  | last ↦ some (length h.mine ∷ (h.mine ++ payload), some (0, 1), record h { phase = finished })
  | finished ↦ none
]

abbrev take_half : Half → Text → Option (Text × Option (ℕ × ℕ) × Half)
take_half h [] = none
take_half h (n ∷ s) = elim h.phase [
  | begun ↦ some ([], none, record h { phase = replied })
  | replied ↦ some (drop n s, none, record h { phase = last; theirs = take n s })
  | last ↦ some (drop n s, some (0, 1), record h { phase = finished; theirs = take n s })
  | finished ↦ none
]

instance abbrev in_plain : Xx
in_plain = record {
  State = Half;
  begin = λ initiator priv public. some (record { phase = begun; mine = public; theirs = [] });
  write_message = put_half;
  read_message = take_half;
  peer_static = λ h. h.theirs;
}

instance in_plain-Authentic : Authentic
in_plain-Authentic = record {
  agrees = λ a b reply hello run ran.
      let (e1, e2, e3, e4, e5, e6, e7, e8) = ran in
      ground (
        arith,
        take-append b.public reply,
        drop-append b.public reply,
        take-append a.public hello,
        drop-append a.public hello,
      );
}

instance abbrev by_its_name : HelloJson
by_its_name = record {
  marshal = λ h. h.name;
  unmarshal = λ s. some (record { v = local_version; name = s; caps = local_caps });
}

abbrev id_ann : Identity
id_ann = record { name = ann; priv = replicate 32 7; public = replicate 32 6 }

abbrev id_bo : Identity
id_bo = record { name = bo; priv = replicate 32 9; public = replicate 32 8 }

abbrev half : Phase → Text → Text → Half
half p mine theirs = record { phase = p; mine = mine; theirs = theirs }

abbrev ann_to_bo : Exchange
ann_to_bo = record {
  first = 1 ∷ [];
  second = 32 ∷ (replicate 32 8 ++ bo);
  third = 32 ∷ (replicate 32 6 ++ ann);
  reads_nothing = [];
  reads_reply = bo;
  reads_hello = ann;
  initiator_ends = some (0, 1);
  responder_ends = some (0, 1);
  i0 = half begun (replicate 32 6) [];
  i1 = half replied (replicate 32 6) [];
  i2 = half last (replicate 32 6) (replicate 32 8);
  i3 = half finished (replicate 32 6) (replicate 32 8);
  r0 = half begun (replicate 32 8) [];
  r1 = half replied (replicate 32 8) [];
  r2 = half last (replicate 32 8) [];
  r3 = half finished (replicate 32 8) (replicate 32 6);
}

ann-Introduced : Introduced id_ann
unfolding validate_name checked_name has_control rune_count
ann-Introduced = (refl, refl, refl)

bo-Introduced : Introduced id_bo
unfolding validate_name checked_name has_control rune_count
bo-Introduced = (refl, refl, refl)

abbrev framed : Text → Text
framed s = 0 ∷ length s ∷ s

abbrev session_with : Identity → ℕ → ℕ → Text → Text → Joined
session_with id enc dec written rest = record {
  conn = conn_with id;
  enc = enc;
  dec = dec;
  written = written;
  rest = rest;
}

handshake-agree_example :
    (initiate id_ann (framed ann_to_bo.second ++ codes "?")
      ≡ ok (session_with id_bo 0 1 (framed ann_to_bo.first ++ framed ann_to_bo.third) (codes "?")))
    × (respond id_bo ((framed ann_to_bo.first ++ framed ann_to_bo.third) ++ codes "!")
        ≡ ok (session_with id_ann 1 0 (framed ann_to_bo.second) (codes "!")))
handshake-agree_example =
    handshake-agree id_ann id_bo ann_to_bo 0 1 (framed ann_to_bo.first) (framed ann_to_bo.second)
      (framed ann_to_bo.third) (codes "?") (codes "!") ann-Introduced bo-Introduced
      (refl, refl, refl, refl, refl, refl, refl, refl) refl (unfold write_frame in refl)
      (unfold write_frame in refl) (unfold write_frame in refl)
