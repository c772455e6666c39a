-- ===== src/App/Shell.antt =====
-- The first run of an app of internal/app/app.go, and its locked database.
use chirp.Prelude.{◌≡◌, refl, Bool, true, false, [], Text, none, some, ok, err, arith, text_eq}
use chirp.Crypto.Aead.{Aead}
use chirp.Crypto.Sealed.{is_encrypted}
use chirp.Identity.Names.{validate_name}
use chirp.Store.Casing.{Casing}
use chirp.Store.Seals.{decrypt, encrypt_with}
use chirp.Store.Meta
use chirp.Store.Meta.{
  Kdf, Identity, Opened, no_keys, passphrase_set, open_with_passphrase, load_identity, load_record,
  save_identity,
}
use chirp.App.{
  App, without_node, nil_store, shell, start_node, started, loaded, open_app, unlock, take_identity,
  setup, set_key, needs_passphrase, replace,
}

-- The app over a database without an identity, and after its setup.
abbrev pub fresh : Text → Meta.Meta → App
fresh passphrase m = without_node passphrase (record { meta = m; keys = no_keys })

module _ ⦃a : Aead⦄ ⦃kdf : Kdf⦄ where
  abbrev pub running : Text → Meta.Meta → Identity → App
  running passphrase m id = record {
    file = record m { identity = some id };
    store = some (set_key (kdf.from_identity id.priv) no_keys);
    open_err = none;
    node = some id;
    passphrase = passphrase;
  }

  module _ ⦃casing : Casing⦄ where
    -- Over a database without a passphrase and without an identity, Setup with a valid name and a
    -- private key that does not look encrypted gives a running app, and opening its file again
    -- gives the same. The file holds the private key as it is, unencrypted.
    pub setup-open :
        (nonce priv public name valid passphrase : Text) (m : Meta.Meta)
        → passphrase_set m ≡ false
        → m.identity ≡ none
        → validate_name name ≡ ok valid
        → is_encrypted priv ≡ false
        → ((setup nonce true priv public name (fresh passphrase m)).0
            ≡ ok (running passphrase m (record { name = valid; priv = priv; public = public })))
          × (open_app true passphrase
                (setup nonce true priv public name (fresh passphrase m)).1.file
              ≡ ok (running passphrase m (record { name = valid; priv = priv; public = public })))
    unfolding setup open_app start_node save_identity encrypt_with started loaded
        open_with_passphrase load_identity load_record passphrase_set
    setup-open nonce priv public name valid passphrase m p i v e =
        let ready : decrypt no_keys priv ≡ ok priv = unfold decrypt in (rw e refl) in
        rw (v, setup) (ground arith)

    -- On a locked database, Unlock with an empty passphrase returns a locked shell and no error.
    -- Once Replace has taken it over, the app does not say any more that it needs a passphrase, and
    -- Setup with a valid name meets the nil store.
    pub unlock-empty :
        (nonce priv public name valid : Text) (starts : Bool) (app : App)
        → app.store ≡ none
        → passphrase_set app.file ≡ true
        → validate_name name ≡ ok valid
        → (unlock starts [] app ≡ ok (shell [] app.file))
          × (needs_passphrase (replace app (shell [] app.file)) ≡ false)
          × ((setup nonce starts priv public name (replace app (shell [] app.file))).0
              ≡ err nil_store)
    unfolding unlock open_app open_with_passphrase setup loaded take_identity text_eq
    unlock-empty nonce priv public name valid starts app s p v = ground arith
