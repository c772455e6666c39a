-- ===== src/App.antt =====
-- internal/app/app.go: the database, the first-run setup and the node that may not run yet. An App is
-- its database file, the keys of the store that it holds open (none where a.St is nil), openErr, the
-- identity of the node that runs, and the passphrase of its Config. What is drawn or decided outside
-- is an argument: nonces, salts, key pairs, and whether Start brings the node up. A call on a nil
-- store is the error `nil_store`: the Go code panics there. Contexts and log lines are left out.
pub mod Lifecycle
pub mod Shell
use chirp.Prelude.{
  Bool, true, false, not, Text, Option, none, some, Result, ok, err, ◌>>=◌, ◌>>◌, guard, wrap,
  if◌then◌else◌,
}
use chirp.Crypto.Aead.{Aead}
use chirp.Identity.Backup
use chirp.Identity.Backup.{Kit, BackupError, BackupFile, export_backup, import_backup}
use chirp.Identity.Names.{NameError, validate_name}
use chirp.Store.Casing.{Casing}
use chirp.Store.Rows.{Keys}
use chirp.Store.Errors.{StoreError, passphrase_required, Res}
use chirp.Store.Meta
use chirp.Store.Meta.{
  Kdf, Identity, Opened, open_with_passphrase, load_identity, save_identity, enable_passphrase,
}

pub record App : Type 0 where
  pub file : Meta.Meta
  pub store : Option Keys
  pub open_err : Option StoreError
  pub node : Option Identity
  pub passphrase : Text

pub data AppError : Type 0 where
  needs_setup already_set_up not_started nil_store file_held : AppError
  bad_name : NameError → AppError
  backup : BackupError → AppError
  not_a_backup : AppError
  store_error : StoreError → AppError

-- The database is open, and there is no identity.
abbrev pub without_node : Text → Opened → App
without_node passphrase s = record {
  file = s.meta;
  store = some s.keys;
  open_err = none;
  node = none;
  passphrase = passphrase;
}

-- The database is locked: openErr is set, and there is no store.
abbrev pub shell : Text → Meta.Meta → App
shell passphrase m = record {
  file = m;
  store = none;
  open_err = some passphrase_required;
  node = none;
  passphrase = passphrase;
}

unfoldable pub start_node : Bool → Identity → App → Result AppError App
start_node starts id a = do guard starts not_started; ok (record a { node = some id })

abbrev pub set_key : Text → Keys → Keys
set_key key keys = record keys { enc_key = some key }

-- st.Key() == nil
abbrev pub key_or : Text → Keys → Keys
key_or key keys = elim keys.enc_key [ none ↦ set_key key keys | some k ↦ keys ]

module _ ⦃a : Aead⦄ ⦃kdf : Kdf⦄ where
  unfoldable pub started : Bool → Text → Opened → Option Identity → Result AppError App
  unfolding start_node
  started starts passphrase s none = ok (without_node passphrase s)
  started starts passphrase s (some id) =
      start_node starts id
        (without_node passphrase (record s { keys = key_or (kdf.from_identity id.priv) s.keys }))

  unfoldable pub loaded : Bool → Text → Meta.Meta → Res Opened → Result AppError App
  loaded starts passphrase m (err passphrase_required) = ok (shell passphrase m)
  loaded starts passphrase m (err e) = err (store_error e)
  loaded starts passphrase m (ok s) = do
    id ← wrap store_error (load_identity s)
    started starts passphrase s id

  unfoldable pub open_app : Bool → Text → Meta.Meta → Result AppError App
  unfolding loaded
  open_app starts passphrase m = loaded starts passphrase m (open_with_passphrase passphrase m)

  -- Opening the file waits for the lock that an open store holds, and gives up.
  unfoldable pub unlock : Bool → Text → App → Result AppError App
  unlock starts passphrase app = elim app.store [
    | some keys ↦ err file_held
    | none ↦ open_app starts passphrase app.file
  ]

  -- The store is opened, its key set, and the identity saved and started.
  unfoldable pub take_identity : Text → Bool → Identity → App → Result AppError App × App
  unfolding start_node
  take_identity nonce starts id app = elim app.store [
    | none ↦ (err nil_store, app)
    | some keys ↦
        let s : Opened = record {
          meta = app.file;
          keys = set_key (kdf.from_identity id.priv) keys;
        } in
        elim (save_identity nonce id s) [
          | err e ↦ (err (store_error e), record app { store = some s.keys })
          | ok t ↦
              let saved = record app { file = t.meta; store = some t.keys } in
              let up = start_node starts id saved in (up, elim up [ ok b ↦ b | err e ↦ saved ])
        ]
  ]

  module _ ⦃casing : Casing⦄ where
    -- Generate takes the valid name and a fresh key pair.
    unfoldable pub setup : Text → Bool → Text → Text → Text → App → Result AppError App × App
    unfolding take_identity
    setup nonce starts priv public name app = elim app.node [
      | some id ↦ (err already_set_up, app)
      | none ↦ elim (validate_name name) [
        | err e ↦ (err (bad_name e), app)
        | ok valid ↦
            take_identity nonce starts (record { name = valid; priv = priv; public = public }) app
      ]
    ]

    -- none where the text is no backup file.
    unfoldable pub restore :
        ⦃kit : Kit⦄ → Text → Bool → Option BackupFile → Text → App → Result AppError App × App
    unfolding take_identity
    restore nonce starts f passphrase app = elim app.node [
      | some id ↦ (err already_set_up, app)
      | none ↦ elim f [
        | none ↦ (err not_a_backup, app)
        | some g ↦ elim (import_backup g passphrase) [
          | err e ↦ (err (backup e), app)
          | ok id ↦
              take_identity nonce starts
                (record { name = id.name; priv = id.priv; public = id.public }) app
        ]
      ]
    ]

  unfoldable pub enable : Text → Text → Text → App → Result AppError App
  enable nonce salt passphrase app = elim app.node [
    | none ↦ err needs_setup
    | some id ↦ elim app.store [
      | none ↦ err nil_store
      | some keys ↦ do
        s ←
            wrap store_error
              (enable_passphrase nonce salt passphrase (record { meta = app.file; keys = keys }))
        ok (record app { file = s.meta; store = some s.keys })
    ]
  ]

-- OpenErr and NeedsPassphrase.
abbrev pub needs_passphrase : App → Bool
needs_passphrase app = elim app.open_err [ none ↦ false | some e ↦ true ]

-- Everything of the new app but openErr.
abbrev pub replace : App → App → App
replace app next = record next { open_err = none }

unfoldable pub backup_of : ⦃kit : Kit⦄ → Text → Text → Text → App → Result AppError BackupFile
backup_of salt nonce passphrase app = elim app.node [
  | none ↦ err needs_setup
  | some id ↦ wrap backup (
      export_backup salt nonce (record { name = id.name; priv = id.priv; public = id.public })
        passphrase)
]
