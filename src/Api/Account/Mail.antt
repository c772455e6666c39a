-- ===== src/Api/Account/Mail.antt =====
-- What the handlers of the app and its settings in internal/api/api.go do leaves the rows as they
-- are, but for that which clears the messages.
use chirp.Prelude.{
  ◌≡◌, refl, Text, Option, none, some, Result, ok, err, arith, Option-cases, Result-cases, inl, inr,
}
use chirp.Crypto.Aead.{Aead}
use chirp.Identity.Backup.{Kit, BackupFile}
use chirp.Identity.Fingerprint.{Sha256}
use chirp.Store.Bolt.{Bolt}
use chirp.Store.Casing.{Casing}
use chirp.Store.Meta.{Kdf, Identity, Settings, save_settings}
use chirp.Identity.Backup.{bad_passphrase}
use chirp.App.{App, AppError, setup, restore, unlock, enable}
use chirp.Node.Views.{rename}
use chirp.Api.Server.{Machine, World, opened_of}
use chirp.Api.Account.{
  state, put_settings, rename_me, unlock_app, enable_at_rest, set_up_app, restore_app, set_up,
  restored,
}

module _ ⦃bolt : Bolt⦄ ⦃casing : Casing⦄ ⦃a : Aead⦄ ⦃sha : Sha256⦄ ⦃kdf : Kdf⦄ ⦃kit : Kit⦄ where
  pub set_up_app-db :
      (w : World) (body : Option Text) (m : Machine) → (set_up_app w body m).1.db ≡ m.db
  unfolding set_up_app
  set_up_app-db w none m = refl
  set_up_app-db w (some name) m = kept (setup w.nonce w.starts w.priv w.public name m.app)
    where
      kept : (r : Result AppError App × App) → (set_up r m).1.db ≡ m.db
      kept (ok b, app) = unfold state in refl
      kept (err AppError.nil_store, app) = refl
      kept (err _, app) = refl

  pub restore_app-db :
      (w : World) (body : Option (Option BackupFile × Text)) (m : Machine)
      → (restore_app w body m).1.db ≡ m.db
  unfolding restore_app
  restore_app-db w none m = refl
  restore_app-db w (some (f, passphrase)) m = kept (restore w.nonce w.starts f passphrase m.app)
    where
      kept : (r : Result AppError App × App) → (restored r m).1.db ≡ m.db
      kept (ok b, app) = unfold state in refl
      kept (err (AppError.backup bad_passphrase), app) = refl
      kept (err AppError.nil_store, app) = refl
      kept (err _, app) = ground arith

  pub unlock_app-db :
      (w : World) (body : Option Text) (m : Machine) → (unlock_app w body m).1.db ≡ m.db
  unfolding unlock_app state
  unlock_app-db w none m = refl
  unlock_app-db w (some passphrase) m = elim (Result-cases (unlock w.starts passphrase m.app)) [
    | inr (x, e) ↦ rw e refl
    | inl (next, e) ↦ rw e refl
  ]

  pub enable_at_rest-db :
      (w : World) (body : Option Text) (m : Machine) → (enable_at_rest w body m).1.db ≡ m.db
  unfolding enable_at_rest
  enable_at_rest-db w none m = refl
  enable_at_rest-db w (some passphrase) m =
      elim (Result-cases (enable w.nonce w.salt passphrase m.app)) [
        | inr (x, e) ↦ ground arith
        | inl (next, e) ↦ ground arith
      ]

  pub rename_me-db :
      (body : Option Text) (id : Identity) (m : Machine) → (rename_me body id m).1.db ≡ m.db
  unfolding rename_me
  rename_me-db none id m = refl
  rename_me-db (some name) id m = elim (Result-cases (rename name (opened_of m))) [
    | inr (x, e) ↦ ground arith
    | inl (s, e) ↦ elim (Option-cases s.meta.identity) [
      | inl i ↦ ground arith
      | inr (rec, i) ↦ ground arith
    ]
  ]

  pub put_settings-db : (body : Option Settings) (m : Machine) → (put_settings body m).1.db ≡ m.db
  unfolding put_settings
  put_settings-db none m = refl
  put_settings-db (some st) m = elim (Result-cases (save_settings st (opened_of m))) [
    | inr (x, e) ↦ ground arith
    | inl (s, e) ↦ ground arith
  ]
