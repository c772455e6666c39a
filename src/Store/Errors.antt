-- ===== src/Store/Errors.antt =====
-- The errors of internal/store. Disk faults of bbolt and of the file system are not modelled.
use chirp.Prelude.{ℕ, Result}
use chirp.Crypto.Sealed.{CryptoError}

pub data StoreError : Type 0 where
  not_found : StoreError
  crypto : CryptoError → StoreError
  no_key base64_decode : StoreError
  no_pending_key identity_exists retention_out_of_range : StoreError
  passphrase_required wrong_passphrase passphrase_too_short passphrase_already_set no_identity :
      StoreError
  bad_key_length too_many_members too_many_reactions : StoreError
  file_not_found not_receiving truncated hash_mismatch not_complete no_temp_file : StoreError
  gap : ℕ → ℕ → StoreError

abbrev pub Res {ℓ} : Type ℓ → Type ℓ
Res A = Result StoreError A
