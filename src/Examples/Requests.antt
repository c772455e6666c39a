-- ===== src/Examples/Requests.antt =====
-- Requests to the local API: one that clears the messages, one before the first run, and a preview.
use chirp.App.{started}
use chirp.Store.Files.{file_blob}
use chirp.Store.Bolt.{find}
use chirp.Api.FileCalls.{get_file}
use chirp.Store.Messages.{remove_msg}
use chirp.Store.Messages.{chosen}
use chirp.Store.Messages.{remove_all}
use chirp.Store.Messages.{delete_messages}
use chirp.Store.Messages.{delete_all_messages}
use chirp.Api.Account.{clear_messages}
use chirp.Bytes.Strings.{has_byte}
use chirp.Bytes.Strings.{last_cut}
use chirp.Bytes.Strings.{split_host_port}
use chirp.Prelude.{
  ◌≡◌, List, ◌≢◌, ◌⊎◌, refl, ap, true, [], ◌∷◌, Text, codes, none, some, ok, Option, replicate,
  arith, text_eq,
}
use chirp.Prelude.Int.{pos}
use chirp.Bytes.Strings.{cut}
use chirp.Store.Rows.{File, complete, dir_in}
use chirp.Store.Files.{find_file, file_data}
use chirp.Store.Meta
use chirp.Store.Meta.{Identity}
use chirp.Node.Sessions.{no_sessions}
use chirp.App.{open_app}
use chirp.App.Lifecycle.{IsKeyed}
use chirp.App.Shell.{fresh, running}
use chirp.Api.{Request, host_name, is_local, secure}
use chirp.Api.Answers.{Body, answer, write_err}
use chirp.Api.Server.{Machine, World, vault_of}
use chirp.Api.FileCalls.{media_type, file_preview}
use chirp.Api.FileCalls.Preview.{HasArrived, IsRaster, file_preview-HasArrived}
use chirp.Api.Routes.{Call, serve, respond}
use chirp.Api.Routes.Keyed.{respond_each, respond_each-IsKeyed}
use chirp.Api.Routes.Requests.{IsFirstRun, respond-changes, serve-waiting}
use chirp.Examples.Buckets.{rows_bolt}
use chirp.Examples.Setup.{ascii_casing, tag_aead, sum_sha}
use chirp.Examples.Data.{nonce, bo, empty_db}
use chirp.Examples.Messages.{hello_db}
use chirp.Examples.Secrets.{padded, small_kit, salt}

abbrev pub blank_meta : Meta.Meta
blank_meta = record { kdf = none; kd_salt = none; identity = none; settings = none }

abbrev pub id_bo : Identity
id_bo = record { name = bo; priv = replicate 32 9; public = replicate 32 8 }

abbrev pub a_world : World
a_world = record {
  nonce = nonce;
  salt = salt;
  id = codes "id";
  priv = replicate 32 9;
  public = replicate 32 8;
  now = 1;
  now_ms = pos 1;
  starts = true;
  writes = λ l. true;
  reaches = λ name. true;
  takes = λ name. true;
  timing = record { now = 1; base = 1; max = 1 };
  detect = λ s. codes "image/png; x=y";
  nearby = [];
}

abbrev pub up : Machine
up = record {
  app = running [] blank_meta id_bo;
  db = hello_db;
  disk = record { temp = λ id. none; blob = λ id. none };
  table = no_sessions;
}

abbrev pub from_ui : Request
from_ui = record {
  method = codes "POST";
  host = codes "localhost:7777";
  path = codes "/api/messages/clear";
  x_chirp = codes "1";
  origin = codes "http://localhost:7777";
}

abbrev pub host_of : Text → Option Text
host_of s = some (codes "localhost:7777")

cleared : (respond host_of from_ui a_world Call.post_clear up).1.db.msgs.0 ≡ []
unfolding respond secure text_eq split_host_port last_cut has_byte serve clear_messages
    delete_all_messages delete_messages remove_all chosen remove_msg
cleared = refl

clearing : (respond host_of from_ui a_world Call.post_clear up).1 ≢ up
clearing e = absurd (ground (arith, cleared, ap (λ n. n.db.msgs.0) e))

respond-changes_example :
    (is_local (host_name (codes "localhost:7777")) ≡ true)
    × (codes "1" ≡ codes "1")
    × ((codes "http://localhost:7777" ≡ [])
        ⊎ (host_of (codes "http://localhost:7777") ≡ some (codes "localhost:7777")))
respond-changes_example = respond-changes host_of from_ui a_world Call.post_clear up clearing

abbrev down : Machine
down = record up { app = fresh [] blank_meta }

serve-waiting_example :
    (serve a_world Call.post_clear down ≡ (write_err 409, down)) ⊎ IsFirstRun Call.post_clear
serve-waiting_example = serve-waiting a_world Call.post_clear down refl

abbrev a_picture : File
a_picture = record {
  id = codes "p";
  peer = bo;
  dir = dir_in;
  name = codes "cat.png";
  size = 3;
  hash = [];
  status = complete;
  received = 3;
  sent = 0;
  ts = 1;
}

abbrev holding : Machine
holding = record down {
  db = record empty_db { files = ((codes "p", a_picture) ∷ [], tt) };
  disk = record { temp = λ id. none; blob = λ id. some (codes "cat") };
}

shown_cat :
    (file_preview a_world (codes "p") holding).0
    ≡ answer 200 (Body.bytes (codes "image/png") [] (codes "cat"))
unfolding file_preview get_file find_file find text_eq file_data file_blob cut
shown_cat = refl

file_preview-HasArrived_example :
    HasArrived (find_file (vault_of holding) (codes "p"))
    × (file_data (codes "p") (vault_of holding) ≡ ok (codes "cat"))
    × (codes "image/png"
        ≡ media_type (cut 59 (a_world.detect (codes "cat"))) (a_world.detect (codes "cat")))
    × IsRaster (codes "image/png")
file_preview-HasArrived_example =
    file_preview-HasArrived a_world (codes "p") (codes "image/png") [] (codes "cat") holding
      shown_cat

blank_opens : open_app true [] blank_meta ≡ ok (fresh [] blank_meta)
unfolding open_app Meta.open_with_passphrase Meta.passphrase_set text_eq Meta.load_identity
    Meta.load_record started
blank_opens = refl

-- First the setup, then an unlocking that the open store refuses.
abbrev two_requests : List (Request × World × Call)
two_requests =
    (from_ui, a_world, Call.post_setup (some bo))
    ∷ (from_ui, a_world, Call.post_unlock (some []))
    ∷ []

respond_each-IsKeyed_example : IsKeyed (respond_each host_of two_requests down).app
respond_each-IsKeyed_example =
    respond_each-IsKeyed host_of true [] blank_meta two_requests down blank_opens
