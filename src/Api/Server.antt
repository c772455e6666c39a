-- ===== src/Api/Server.antt =====
-- The state that the handlers of internal/api/api.go work on: the app, the rows and the files of its
-- store, and the sessions of its node.
pub mod Mail
use chirp.Prelude.{ℕ, Bool, true, false, Text, List, Option, none, some, Result, ok, err}
use chirp.Prelude.Int.{ℤ}
use chirp.Store.Bolt.{Bolt}
use chirp.Store.Rows.{Db, Keys, Store}
use chirp.Store.Files.{Disk, Vault}
use chirp.Store.Meta.{Identity, Opened, no_keys}
use chirp.Node.RoomPosts
use chirp.Node.Sessions.{Table}
use chirp.Node.Dialing.{Nearby}
use chirp.App.{App}
use chirp.Api.Answers.{Failure, Response, Body, fail, answer, write_err, all_done}

pub record Machine ⦃bolt : Bolt⦄ : Type 0 where
  pub app : App
  pub db : Db
  pub disk : Disk
  pub table : Table

-- What a request draws or asks of the world: random bytes, the time, whether Start brings a node up,
-- which sessions take what is written, by link and by name, and http.DetectContentType, and
-- what is nearby.
pub record World : Type 0 where
  pub nonce : Text
  pub salt : Text
  pub id : Text
  pub priv : Text
  pub public : Text
  pub now : ℕ
  pub now_ms : ℤ
  pub starts : Bool
  pub writes : ℕ → Bool
  pub reaches : Text → Bool
  pub takes : Text → Bool
  pub timing : RoomPosts.Timing
  pub detect : Text → Text
  pub nearby : List Nearby

module _ ⦃bolt : Bolt⦄ where
  abbrev pub keys_of : Machine → Keys
  keys_of m = elim m.app.store [ none ↦ no_keys | some k ↦ k ]

  abbrev pub rows_of : Machine → Store
  rows_of m = record { db = m.db; keys = keys_of m }

  abbrev pub vault_of : Machine → Vault
  vault_of m = record { store = rows_of m; disk = m.disk }

  abbrev pub opened_of : Machine → Opened
  opened_of m = record { meta = m.app.file; keys = keys_of m }

  abbrev pub with_rows : Store → Machine → Machine
  with_rows s m = record m { db = s.db }

  abbrev pub with_vault : Vault → Machine → Machine
  with_vault v m = record m { db = v.store.db; disk = v.disk }

  abbrev pub with_app : App → Machine → Machine
  with_app app m = record m { app = app }

  abbrev pub is_live : Machine → Text → Bool
  is_live m key = elim (m.table.live key) [ none ↦ false | some l ↦ true ]

  -- needNode: the handler runs with the node's identity, or not at all.
  abbrev pub need_node : (Identity → Machine → Response × Machine) → Machine → Response × Machine
  need_node f m = elim m.app.node [ none ↦ (write_err 409, m) | some id ↦ f id m ]

  -- readJSON: a body that does not decode ends the request.
  abbrev pub read_json :
      {A : Type 0} → Option A → (A → Response × Machine) → Machine → Response × Machine
  read_json none f m = (write_err 400, m)
  read_json (some a) f m = f a

  -- A call that only reads.
  abbrev pub shown :
      {E A : Type 0} → (E → Failure) → ℕ → (A → Body) → Result E A → Machine → Response × Machine
  shown of status body (ok a) m = (answer status (body a), m)
  shown of status body (err e) m = (fail (of e), m)

  -- A call that has left the rows as they are given, also where it failed.
  abbrev pub stored :
      {E A : Type 0}
      → (E → Failure)
      → (A → Response)
      → Result E A × Store
      → Machine
      → Response × Machine
  stored of body (ok a, s) m = (body a, with_rows s m)
  stored of body (err e, s) m = (fail (of e), with_rows s m)

  -- A call that returns the new rows where it succeeds.
  abbrev pub changed : {E : Type 0} → (E → Failure) → Result E Store → Machine → Response × Machine
  changed of (ok s) m = (all_done, with_rows s m)
  changed of (err e) m = (fail (of e), m)

  abbrev pub announced :
      {E A : Type 0}
      → (E → Failure)
      → ℕ
      → Body
      → Result E (A × Store)
      → Machine
      → Response × Machine
  announced of status body (ok (sent, s)) m = (answer status body, with_rows s m)
  announced of status body (err e) m = (fail (of e), m)
