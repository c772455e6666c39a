-- ===== src/Api/Account.antt =====
-- The handlers of internal/api/api.go for the app and its settings: state, unlock, enablePassphrase,
-- setup, restore, me, rename, getSettings, putSettings, clearMessages, backup and parseInvite.
pub mod Mail
use chirp.Prelude.{true, false, Text, Option, none, some, Result, ok, err}
use chirp.Crypto.Aead.{Aead}
use chirp.Identity.Backup.{Kit, BackupFile, bad_passphrase}
use chirp.Identity.Fingerprint.{Sha256}
use chirp.Node.Roster.{me_of}
use chirp.Store.Bolt.{Bolt}
use chirp.Store.Casing.{Casing}
use chirp.Store.Errors.{passphrase_required, wrong_passphrase, Res}
use chirp.Store.Messages.{delete_all_messages}
use chirp.Store.Meta.{Kdf, Identity, Opened, Settings, settings, save_settings}
use chirp.Node.Invite.{InviteError, parse_invite}
use chirp.Node.Views.{RenameError, rename}
use chirp.App.{App, AppError, unlock, setup, restore, enable, replace, backup_of, needs_passphrase}
use chirp.Api.Answers.{
  Response, Body, Failure, answer, write_err, all_done, aborted, fail, of_rename,
}
use chirp.Api.Server.{Machine, World, opened_of, with_app, read_json}

module _ ⦃bolt : Bolt⦄ ⦃sha : Sha256⦄ where
  -- setup, locked, me
  unfoldable pub state : Machine → Response × Machine
  state m = (
    answer 200 (elim m.app.node [
      | some id ↦ Body.state false false (some (me_of id))
      | none ↦ Body.state true (needs_passphrase m.app) none
    ]),
    m,
  )

  -- The new record and, in memory, the new name.
  abbrev pub renamed : Result RenameError Opened → Identity → Machine → Response × Machine
  renamed (err e) id m = (fail (of_rename e), m)
  renamed (ok s) id m = elim s.meta.identity [
    | none ↦ (fail Failure.other, m)
    | some rec ↦
        let me : Identity = record id { name = rec.name } in
        (
          answer 200 (Body.me (me_of me)),
          with_app (record (m.app) { file = s.meta; node = some me }) m,
        )
  ]

  unfoldable pub get_settings : Machine → Response × Machine
  get_settings m = (answer 200 (Body.settings (settings (opened_of m))), m)

  abbrev pub settings_put : Settings → Res Opened → Machine → Response × Machine
  settings_put st (err e) m = (write_err 400, m)
  settings_put st (ok s) m =
      (answer 200 (Body.settings st), with_app (record (m.app) { file = s.meta }) m)

  unfoldable pub put_settings : Option Settings → Machine → Response × Machine
  put_settings body m = read_json body (λ st. settings_put st (save_settings st (opened_of m)) m) m

  unfoldable pub clear_messages : Machine → Response × Machine
  clear_messages m = (all_done, record m { db = delete_all_messages m.db })

  abbrev pub address : Result InviteError (Text × Text × Text) → Response
  address (ok (host, port, fp)) = answer 200 (Body.address host port fp)
  address (err e) = write_err 400

  unfoldable pub parse_invite_uri : Option Text → Machine → Response × Machine
  parse_invite_uri body m = read_json body (λ uri. (address (parse_invite uri), m)) m

  unfoldable pub rename_me :
      ⦃casing : Casing⦄ → Option Text → Identity → Machine → Response × Machine
  rename_me body id m = read_json body (λ name. renamed (rename name (opened_of m)) id m) m

  unfoldable pub export_key : ⦃kit : Kit⦄ → World → Option Text → Machine → Response × Machine
  export_key w body m =
      read_json body
        (λ passphrase. elim (backup_of w.salt w.nonce passphrase m.app) [
          | ok f ↦ (answer 200 (Body.backup f), m)
          | err e ↦ (write_err 400, m)
        ])
        m

  -- Setup and restore change the app also where they fail.
  abbrev pub set_up : Result AppError App × App → Machine → Response × Machine
  set_up (ok b, app) m = state (with_app app m)
  set_up (err AppError.nil_store, app) m = (aborted, with_app app m)
  set_up (err e, app) m = (write_err 400, with_app app m)

  abbrev pub restored : Result AppError App × App → Machine → Response × Machine
  restored (ok b, app) m = state (with_app app m)
  restored (err (AppError.backup bad_passphrase), app) m = (write_err 401, with_app app m)
  restored (err AppError.nil_store, app) m = (aborted, with_app app m)
  restored (err e, app) m = (write_err 400, with_app app m)

  -- The error of a wrong passphrase has the word in it; the others have not.
  abbrev pub unlock_error : AppError → Response
  unlock_error (AppError.store_error wrong_passphrase) = write_err 401
  unlock_error (AppError.store_error passphrase_required) = write_err 401
  unlock_error e = write_err 500

  abbrev pub unlocked : Result AppError App → Machine → Response × Machine
  unlocked (ok next) m = state (with_app (replace m.app next) m)
  unlocked (err e) m = (unlock_error e, m)

  module _ ⦃a : Aead⦄ ⦃kdf : Kdf⦄ where
    unfoldable pub unlock_app : World → Option Text → Machine → Response × Machine
    unlock_app w body m =
        read_json body (λ passphrase. unlocked (unlock w.starts passphrase m.app) m) m

    unfoldable pub enable_at_rest : World → Option Text → Machine → Response × Machine
    enable_at_rest w body m =
        read_json body
          (λ passphrase. elim (enable w.nonce w.salt passphrase m.app) [
            | ok app ↦ (all_done, with_app app m)
            | err e ↦ (write_err 400, m)
          ])
          m

    unfoldable pub set_up_app :
        ⦃casing : Casing⦄ → World → Option Text → Machine → Response × Machine
    set_up_app w body m =
        read_json body (λ name. set_up (setup w.nonce w.starts w.priv w.public name m.app) m) m

    unfoldable pub restore_app :
        ⦃casing : Casing⦄ ⦃kit : Kit⦄
        → World
        → Option (Option BackupFile × Text)
        → Machine
        → Response × Machine
    restore_app w body m =
        read_json body (λ (f, passphrase). restored (restore w.nonce w.starts f passphrase m.app) m)
          m
