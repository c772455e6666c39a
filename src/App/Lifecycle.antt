-- ===== src/App/Lifecycle.antt =====
-- A running app of internal/app/app.go has the key of its store, however it came about.
use chirp.Prelude.{
  ◌≡◌, ◌⊎◌, Bool, Text, Option, none, some, ok, err, arith, Option-cases, Result-cases, inl, inr,
  length,
}
use chirp.Crypto.Aead.{Aead}
use chirp.Identity.Backup.{Kit, BackupFile, import_backup}
use chirp.Identity.Names.{validate_name}
use chirp.Store.Casing.{Casing}
use chirp.Store.Rows.{Keys}
use chirp.Store.Seals.{encrypt_with}
use chirp.Store.Errors.{StoreError, passphrase_required}
use chirp.Store.Meta
use chirp.Store.Meta.{
  Kdf, Identity, Opened, no_keys, passphrase_set, open_with_passphrase, load_identity, load_record,
  save_identity, enable_passphrase, protect, unlocked, passphrase_keys, salt_of,
}
use chirp.App.{
  App, start_node, started, loaded, open_app, unlock, take_identity, setup, restore, enable,
  replace,
}

module _ ⦃a : Aead⦄ ⦃kdf : Kdf⦄ where
  -- A key of 32 bytes.
  abbrev pub HasKey : Option Text → Type 0
  HasKey none = ⊥
  HasKey (some k) = length k ≡ 32

  -- Where a node runs, the store is open and has a key.
  abbrev pub KeyedNode : Option Identity → Option Keys → Type 0
  KeyedNode none store = Unit {0}
  KeyedNode (some id) none = ⊥
  KeyedNode (some id) (some keys) = HasKey keys.enc_key

  abbrev pub IsKeyed : App → Type 0
  IsKeyed app = KeyedNode app.node app.store

  take_identity-IsKeyed :
      (nonce : Text) (starts : Bool) (id : Identity) (app : App)
      → app.node ≡ none
      → IsKeyed (take_identity nonce starts id app).1
  unfolding take_identity start_node save_identity
  take_identity-IsKeyed nonce starts id app n = elim (Option-cases app.store) [
    | inl s ↦ ground arith
    | inr (keys, s) ↦ ground (arith, kdf.length-from_identity id.priv)
  ]

  -- The keys that a database opens with are absent or of 32 bytes.
  opened-HasKey :
      (passphrase : Text) (m : Meta.Meta) (s : Opened)
      → open_with_passphrase passphrase m ≡ ok s
      → (s.keys.enc_key ≡ none) ⊎ HasKey s.keys.enc_key
  unfolding open_with_passphrase unlocked
  opened-HasKey passphrase m s h =
      let keys = passphrase_keys passphrase (salt_of m) in
      elim (Result-cases (load_record m.identity keys)) [
        | inr (x, e) ↦ ground arith
        | inl (none, e) ↦ ground arith
        | inl (some id, e) ↦ ground (arith, kdf.length-from_identity id.priv)
      ]

  refused-IsKeyed :
      (starts : Bool) (passphrase : Text) (m : Meta.Meta) (x : StoreError) (app : App)
      → loaded starts passphrase m (err x) ≡ ok app
      → IsKeyed app
  unfolding loaded
  refused-IsKeyed starts passphrase m passphrase_required app h = ground arith
  refused-IsKeyed starts passphrase m _ app h = ground arith

  pub open_app-IsKeyed :
      (starts : Bool) (passphrase : Text) (m : Meta.Meta) (app : App)
      → open_app starts passphrase m ≡ ok app
      → IsKeyed app
  unfolding open_app loaded started start_node
  open_app-IsKeyed starts passphrase m app h =
      elim (Result-cases (open_with_passphrase passphrase m)) [
        | inr (x, e) ↦ refused-IsKeyed starts passphrase m x app (rw e at h)
        | inl (s, e) ↦ elim (Result-cases (load_identity s)) [
          | inr (x, l) ↦ absurd (ground arith)
          | inl (none, l) ↦ ground arith
          | inl (some id, l) ↦
              ground (arith, opened-HasKey passphrase m s e, kdf.length-from_identity id.priv)
        ]
      ]

  pub unlock-IsKeyed :
      (starts : Bool) (passphrase : Text) (app next : App)
      → unlock starts passphrase app ≡ ok next
      → IsKeyed (replace app next)
  unfolding unlock
  unlock-IsKeyed starts passphrase app next h = elim (Option-cases app.store) [
    | inr (keys, s) ↦ absurd (ground arith)
    | inl s ↦ open_app-IsKeyed starts passphrase app.file next (ground arith)
  ]

  pub setup-IsKeyed :
      ⦃casing : Casing⦄ (nonce : Text) (starts : Bool) (priv public name : Text) (app : App)
      → IsKeyed app
      → IsKeyed (setup nonce starts priv public name app).1
  unfolding setup
  setup-IsKeyed nonce starts priv public name app w = elim (Option-cases app.node) [
    | inr (id, n) ↦ rw n (rw n at w)
    | inl n ↦ elim (Result-cases (validate_name name)) [
      | inr (x, v) ↦ ground arith
      | inl (valid, v) ↦ ground (
        arith,
        take_identity-IsKeyed nonce starts (record { name = valid; priv = priv; public = public })
            app n,
      )
    ]
  ]

  pub restore-IsKeyed :
      ⦃casing : Casing⦄ ⦃kit : Kit⦄ (nonce : Text) (starts : Bool) (f : Option BackupFile)
      (passphrase : Text) (app : App)
      → IsKeyed app
      → IsKeyed (restore nonce starts f passphrase app).1
  unfolding restore
  restore-IsKeyed nonce starts none passphrase app w = ground arith
  restore-IsKeyed nonce starts (some g) passphrase app w = elim (Option-cases app.node) [
    | inr (id, n) ↦ ground arith
    | inl n ↦ elim (Result-cases (import_backup g passphrase)) [
      | inr (x, v) ↦ ground arith
      | inl (id, v) ↦ ground (
        arith,
        take_identity-IsKeyed nonce starts
            (record { name = id.name; priv = id.priv; public = id.public }) app n,
      )
    ]
  ]

  enable_passphrase-HasKey :
      (nonce salt passphrase : Text) (s t : Opened)
      → enable_passphrase nonce salt passphrase s ≡ ok t
      → HasKey s.keys.enc_key
      → HasKey t.keys.enc_key
  unfolding enable_passphrase protect
  enable_passphrase-HasKey nonce salt passphrase s t h k = elim (Option-cases s.keys.enc_key) [
    | inl e ↦ absurd (rw e at k)
    | inr (key, e) ↦ elim (Result-cases (load_identity s)) [
      | inr (x, l) ↦ absurd (ground arith)
      | inl (none, l) ↦ absurd (ground arith)
      | inl (some id, l) ↦ elim (Option-cases s.meta.identity) [
        | inl n ↦ absurd (ground arith)
        | inr (rec, n) ↦
            elim (Result-cases
              (encrypt_with nonce (some (kdf.from_passphrase passphrase salt)) rec.priv)) [
                | inr (x, c) ↦ absurd (ground arith)
                | inl (sealed, c) ↦ ground arith
              ]
      ]
    ]
  ]

  pub enable-IsKeyed :
      (nonce salt passphrase : Text) (app next : App)
      → enable nonce salt passphrase app ≡ ok next
      → IsKeyed app
      → IsKeyed next
  unfolding enable
  enable-IsKeyed nonce salt passphrase app next h w = elim (Option-cases app.node) [
    | inl n ↦ absurd (ground arith)
    | inr (id, n) ↦ elim (Option-cases app.store) [
      | inl s ↦ absurd (ground arith)
      | inr (keys, s) ↦
          let before : Opened = record { meta = app.file; keys = keys } in
          elim (Result-cases (enable_passphrase nonce salt passphrase before)) [
            | inr (x, e) ↦ absurd (ground arith)
            | inl (t, e) ↦ ground (arith, enable_passphrase-HasKey nonce salt passphrase before t e)
          ]
    ]
  ]

  data Step : App → App → Type 0 where
    reopened :
        (starts : Bool) (passphrase : Text) {app next : App}
        → unlock starts passphrase app ≡ ok next
        → Step app (replace app next)
    set_up :
        ⦃casing : Casing⦄ (nonce : Text) (starts : Bool) (priv public name : Text) {app : App}
        → Step app (setup nonce starts priv public name app).1
    restored :
        ⦃casing : Casing⦄ ⦃kit : Kit⦄ (nonce : Text) (starts : Bool) (f : Option BackupFile)
        (passphrase : Text) {app : App}
        → Step app (restore nonce starts f passphrase app).1
    enabled :
        (nonce salt passphrase : Text) {app next : App}
        → enable nonce salt passphrase app ≡ ok next
        → Step app next

  data Run (app : App) : App → Type 0 where
    here : Run app app
    then_do : {b c : App} → Run app b → Step b c → Run app c

  Step-IsKeyed : {b c : App} → Step b c → IsKeyed b → IsKeyed c
  Step-IsKeyed (reopened starts p {app} {next} h) w = unlock-IsKeyed starts p app next h
  Step-IsKeyed (set_up nonce starts priv public name {app}) w =
      setup-IsKeyed nonce starts priv public name app w
  Step-IsKeyed (restored nonce starts f passphrase {app}) w =
      restore-IsKeyed nonce starts f passphrase app w
  Step-IsKeyed (enabled nonce salt passphrase {app} {next} h) w =
      enable-IsKeyed nonce salt passphrase app next h w

  Run-IsKeyed : {b c : App} → Run b c → IsKeyed b → IsKeyed c
  Run-IsKeyed here w = w
  Run-IsKeyed (then_do r s) w = Step-IsKeyed s (Run-IsKeyed r w)

  -- From an app that Open returns, whatever unlocking, setups, restores and passphrases follow, a
  -- node runs only with an open store that has a key of 32 bytes.
  app-IsKeyed :
      (starts : Bool) (passphrase : Text) (m : Meta.Meta) (app later : App)
      → open_app starts passphrase m ≡ ok app
      → Run app later
      → IsKeyed later
  app-IsKeyed starts passphrase m app later h r =
      Run-IsKeyed r (open_app-IsKeyed starts passphrase m app h)
