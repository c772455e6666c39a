-- ===== src/Examples/Running.antt =====
-- An app from its first run on, and channels, the log and announcements at small inputs.
use chirp.Discovery.{digits}
use chirp.Node.Invite.{format_invite}
use chirp.Node.OwnInvite.{qr_svg}
use chirp.Bytes.Strings.{has_byte}
use chirp.Node.OwnInvite.{usable}
use chirp.Node.OwnInvite.{all_usable}
use chirp.Node.OwnInvite.{texts}
use chirp.Prelude.{
  ℕ, ◌≡◌, ◌++◌, refl, Option, All, take, true, false, [], ◌∷◌, List, Text, codes, none, some, ok,
  err, replicate, arith, text_eq,
}
use chirp.Bytes.Utf8.{rune_count}
use chirp.Identity.Names.{validate_name, checked_name, has_control}
use chirp.Crypto.Sealed.{is_encrypted}
use chirp.Store.Meta
use chirp.Store.Meta.{Identity, passphrase_set}
use chirp.App.{App, nil_store, shell, setup, open_app, unlock, replace, needs_passphrase}
use chirp.App.Shell.{fresh, running, setup-open, unlock-empty}
use chirp.Node.Events.{
  Event, EventType, Subs, emit, subscribe, channel, take_from, offer_each, try_send,
}
use chirp.Node.Events.Delivery.{
  Act, act, run, receipts, emissions, waiting, Sublist, KeepsUp, emit-Sublist, emit_complete,
}
use chirp.Discovery
use chirp.Discovery.{Announcement}
use chirp.Discovery.Memory.{new_hub}
use chirp.Bytes.Hex.{IsDigit}
use chirp.Node.Announcing.{Announcer, announce_again, start_announcing}
use chirp.Node.Invite.{parse_invite}
use chirp.Node.OwnInvite.{Code, Interface, Invite, invite, local_addresses, drawn}
use chirp.Node.OwnInvite.Usable.{IsPrinted, invite-parse_invite}
use chirp.Examples.Setup.{ascii_casing, tag_aead}
use chirp.Examples.Data.{nonce, ann, bo}
use chirp.Examples.Secrets.{padded, protected}

-- A database without an identity and without a passphrase.
abbrev blank_meta : Meta.Meta
blank_meta = record { kdf = none; kd_salt = none; identity = none; settings = none }

abbrev private_key : Text
private_key = replicate 32 9

abbrev public_key : Text
public_key = replicate 32 8

abbrev new_bo : Identity
new_bo = record { name = bo; priv = private_key; public = public_key }

bo_is_a_name : validate_name bo ≡ ok bo
unfolding validate_name checked_name has_control rune_count
bo_is_a_name = refl

setup-open_example :
    ((setup nonce true private_key public_key bo (fresh [] blank_meta)).0
      ≡ ok (running [] blank_meta new_bo))
    × (open_app true [] (setup nonce true private_key public_key bo (fresh [] blank_meta)).1.file
        ≡ ok (running [] blank_meta new_bo))
unfolding passphrase_set text_eq
setup-open_example =
    setup-open nonce private_key public_key bo bo [] blank_meta refl refl bo_is_a_name
      (unfold is_encrypted in unfold text_eq in refl)

abbrev locked_app : App
locked_app = shell [] protected.meta

unlock-empty_example :
    (unlock true [] locked_app ≡ ok (shell [] protected.meta))
    × (needs_passphrase (replace locked_app (shell [] protected.meta)) ≡ false)
    × ((setup nonce true private_key public_key bo (replace locked_app (shell [] protected.meta))).0
        ≡ err nil_store)
unfolding passphrase_set text_eq
unlock-empty_example =
    unlock-empty nonce private_key public_key bo bo true locked_app refl refl bo_is_a_name

-- A subscriber that gets one event, takes it, and has another waiting.
abbrev an_event : Text → Event
an_event peer = record {
  type = EventType.peers;
  peer = peer;
  message = none;
  emoji = [];
  target = [];
  file_id = [];
  file_src = [];
  file_size = 0;
  file_hash = [];
  room = [];
  room_message = none;
}

abbrev nobody : Subs
nobody = record { next_sub = 0; subs = [] }

abbrev acts : List Act
acts =
    Act.emitted (an_event bo)
    ∷ Act.received 0
    ∷ Act.joined
    ∷ Act.emitted (an_event ann)
    ∷ Act.left 1
    ∷ []

emit-Sublist_example :
    Sublist
      (receipts 0 acts (act Act.joined nobody) ++ waiting 0 (run acts (act Act.joined nobody)))
      (emissions acts)
emit-Sublist_example = emit-Sublist nobody acts (refl, tt)

acts-KeepsUp : KeepsUp 0 acts (act Act.joined nobody)
unfolding subscribe emit channel take_from offer_each try_send
acts-KeepsUp = ground arith

emit_complete_example :
    receipts 0 acts (act Act.joined nobody) ++ waiting 0 (run acts (act Act.joined nobody))
    ≡ emissions acts
emit_complete_example = emit_complete nobody acts (refl, tt) acts-KeepsUp

abbrev an_announcement : Announcement
an_announcement = record { name = bo; fp = replicate 64 97; port = 4000 }

abbrev by_ann : Announcement
by_ann = record { name = ann; fp = replicate 64 98; port = 4000 }

abbrev both_names : Announcer
both_names = announce_again an_announcement (start_announcing [] by_ann new_hub)

-- The later browser meets the old name first, and Stop ends the old context first.
abbrev oldest_first : List (ℕ × Announcement)
oldest_first = (2, by_ann) ∷ (3, an_announcement) ∷ []

-- A private address after a public one; the code has one black module.
abbrev interfaces : List Interface
interfaces =
    record { up = true; loopback = true; addrs = none }
    ∷ record {
      up = true;
      loopback = false;
      addrs = some (
          some (record {
            text = codes "8.8.8.8";
            is_loopback = false;
            is_link_local = false;
            is_private = false;
          })
          ∷ none
          ∷ some (record {
            text = codes "10.0.0.7";
            is_loopback = false;
            is_link_local = false;
            is_private = true;
          })
          ∷ []);
    }
    ∷ []

abbrev dot : Text → Option Code
dot s = some (record { size = 1; black = λ x y. true })

abbrev fp : Text
fp = replicate 64 97

abbrev an_invite : Invite
an_invite = record {
  uri = codes "chirp://add/10.0.0.7:4000/" ++ replicate 16 97;
  host = codes "10.0.0.7";
  port = codes "4000";
  fingerprint = fp;
  addresses = codes "10.0.0.7" ∷ codes "8.8.8.8" ∷ [];
  svg = drawn 8 (record { size = 1; black = λ x y. true });
}

addresses-IsPrinted : All IsPrinted (local_addresses (some interfaces))
unfolding local_addresses texts all_usable usable has_byte
addresses-IsPrinted = (((refl, refl, refl), refl, refl), ((((refl, refl, refl), refl, refl)), tt))

fp-IsDigit : All IsDigit fp
fp-IsDigit = ground arith

an_invite_made : invite dot (some interfaces) 4000 fp ≡ some an_invite
unfolding invite qr_svg format_invite local_addresses digits texts all_usable usable
an_invite_made = refl

invite-parse_invite_example :
    (parse_invite an_invite.uri ≡ ok (codes "10.0.0.7", codes "4000", take 16 fp))
    × (fp ≡ fp)
    × (an_invite.addresses ≡ local_addresses (some interfaces))
invite-parse_invite_example =
    invite-parse_invite dot (some interfaces) 4000 fp an_invite addresses-IsPrinted fp-IsDigit
      (ground arith) an_invite_made
