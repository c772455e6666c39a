-- ===== src/Examples/Secrets.antt =====
-- Passphrases, backups and a Noise session, with small functions for the key derivations, the
-- ciphers and JSON; and what needs a store or a fingerprint besides.
use chirp.Prelude.{
  ◌≡◌, ◌++◌, refl, [], ◌∷◌, Text, codes, text_eq, none, some, ok, err, Option, ℕ, suc, length, ◌==◌,
  if◌then◌else◌, take-append, drop-append, replicate, take, drop, arith,
}
use chirp.Bytes.Utf8.{rune_count}
use chirp.Store.Seals.{decrypt, encrypt_with}
use chirp.Proto.Frame.{write_frame}
use chirp.Proto.Envelope.{Envelope, MsgType, validate}
use chirp.Crypto.Sealed.{is_encrypted, encrypt}
use chirp.Identity.Names.{validate_name, checked_name, has_control}
use chirp.Identity.Backup
use chirp.Identity.Backup.{
  Kit, BackupFile, Params, params_of, export_backup, import_backup, import-export_backup,
}
use chirp.Store.Meta.{
  Kdf, Opened, no_keys, load_identity, load_record, protect, enable_passphrase, open_plain,
  open_with_passphrase, passphrase_set,
}
use chirp.Store.Meta.Passphrase.{Closed, open-enable_passphrase}
use chirp.Store.Errors.{wrong_passphrase}
use chirp.Session.{Noise, Json, send, encode, send_each, recv_each}
use chirp.Session.Stream.{recv_each-send_each}
use chirp.Node.Transfer.{bare}
use chirp.Examples.Setup.{ascii_casing, tag_aead, sum_sha, tagged, tagged-append, tag}
use chirp.Examples.Data.{nonce, bo}

instance abbrev pub padded : Kdf
padded = record {
  from_passphrase = λ p salt. (length p) ∷ replicate 31 0;
  from_identity = λ priv. replicate 32 1;
  length-from_passphrase = λ p salt. refl;
  length-from_identity = λ priv. refl;
}

abbrev pub owner : package.chirp.Store.Meta.Identity
owner = record { name = bo; priv = replicate 32 9; public = replicate 32 8 }

abbrev pub unprotected : Opened
unprotected = record {
  meta = record { kdf = none; kd_salt = none; identity = some owner; settings = none };
  keys = no_keys;
}

abbrev pub salt : Text
salt = replicate 16 3

abbrev pub secret : Text
secret = codes "correct horse battery"

abbrev pub protected : Opened
protected = record {
  meta = record {
    kdf = some (codes "argon2id");
    kd_salt = some salt;
    identity = some (record owner {
      priv =
          codes "CHIRPENC"
          ++ 1 ∷ (nonce ++ (replicate 32 9 ++ tag (padded.from_passphrase secret salt) nonce));
    });
    settings = none;
  };
  keys = record {
    enc_key = some (padded.from_identity (replicate 32 9));
    id_key = some (padded.from_passphrase secret salt);
  };
}

enabled : enable_passphrase nonce salt secret unprotected ≡ ok protected
unfolding enable_passphrase rune_count passphrase_set text_eq load_identity load_record decrypt
    is_encrypted protect encrypt_with encrypt
enabled = refl

abbrev guess : Text
guess = codes "wrong guess"

open-enable_passphrase_example :
    Closed (replicate 32 7) protected
    × (open_with_passphrase guess protected.meta ≡ err wrong_passphrase)
    × (open_with_passphrase secret protected.meta ≡ ok protected)
open-enable_passphrase_example =
    open-enable_passphrase nonce salt secret guess (replicate 32 7) owner unprotected protected refl
      refl (unfold is_encrypted in unfold text_eq in refl) (unfold text_eq in refl) enabled
      (unfold text_eq in refl) (unfold text_eq in refl)

-- The name and the private key after their lengths, then the public key.
abbrev pub marshalled : Backup.Identity → Text
marshalled id = (length id.name ∷ id.name) ++ ((length id.priv ∷ id.priv) ++ id.public)

abbrev pub split_keys : Text → Text → Option Backup.Identity
split_keys name [] = none
split_keys name (n ∷ s) = some (record { name = name; priv = take n s; public = drop n s })

abbrev pub unmarshalled : Text → Option Backup.Identity
unmarshalled [] = none
unmarshalled (n ∷ s) = split_keys (take n s) (drop n s)

pub unmarshalled-marshalled : (id : Backup.Identity) → unmarshalled (marshalled id) ≡ some id
unmarshalled-marshalled id = ground (
  arith,
  take-append id.name ((length id.priv ∷ id.priv) ++ id.public),
  drop-append id.name ((length id.priv ∷ id.priv) ++ id.public),
  take-append id.priv id.public,
  drop-append id.priv id.public,
)

instance abbrev pub small_kit : Kit
small_kit = record {
  scrypt_key = λ passphrase salt n r p. length passphrase ∷ replicate 31 0;
  seal = λ key nonce text ad. text ++ tag key nonce;
  open' = λ key nonce sealed ad. tagged key nonce sealed;
  open-seal = λ key nonce text ad. tagged-append key nonce text;
  marshal_params = λ f. f.salt;
  marshal = marshalled;
  unmarshal = unmarshalled;
  unmarshal-marshal = unmarshalled-marshalled;
  public_of = λ priv. replicate 32 8;
}

abbrev me : Backup.Identity
me = record { name = bo; priv = replicate 32 9; public = replicate 32 8 }

abbrev kept : BackupFile
kept = record {
  params = params_of salt;
  nonce = nonce;
  data' = marshalled me ++ tag (length secret ∷ replicate 31 0) nonce;
}

exported : export_backup salt nonce me secret ≡ ok kept
unfolding export_backup rune_count
exported = refl

import-export_backup_example : import_backup kept secret ≡ ok me
unfolding validate_name checked_name rune_count has_control
import-export_backup_example =
    import-export_backup salt nonce secret me kept refl refl refl refl refl refl exported

-- A cipher that puts its count before a message, and JSON of a ping.
instance abbrev pub counted : Noise
counted = record {
  Cipher = ℕ;
  encrypt = λ c plain. (c ∷ plain, suc c);
  decrypt = λ c sealed. elim sealed [
    | [] ↦ none
    | b ∷ plain ↦ if b == c then some (plain, suc c) else none
  ];
  decrypt-encrypt = λ c plain. ground arith;
}

abbrev a_ping : Envelope
a_ping = bare MsgType.ping

instance abbrev pings : Json
pings = record { marshal = λ e. codes "{}"; unmarshal = λ s. some a_ping }

two_pings :
    send_each (a_ping ∷ a_ping ∷ []) 0
    ≡ ok ((0 ∷ 3 ∷ 0 ∷ codes "{}") ++ (0 ∷ 3 ∷ 1 ∷ codes "{}"), 2)
unfolding send_each send encode validate write_frame
two_pings = refl

recv_each-send_each_example :
    recv_each 2 (((0 ∷ 3 ∷ 0 ∷ codes "{}") ++ (0 ∷ 3 ∷ 1 ∷ codes "{}")) ++ codes "!") 0
    ≡ ok (a_ping ∷ a_ping ∷ [], codes "!", 2)
recv_each-send_each_example =
    recv_each-send_each (a_ping ∷ a_ping ∷ []) 0 2
      ((0 ∷ 3 ∷ 0 ∷ codes "{}") ++ (0 ∷ 3 ∷ 1 ∷ codes "{}")) (codes "!") (refl, (refl, tt))
      two_pings
