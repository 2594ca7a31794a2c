-- ===== src/Credentials/Locators.antt =====
-- `create_communication_credential` of app/infrastructure/credentials/locators.py over the store in
-- the process. `generate i` is the locator of the attempt `i`, `versions i` the version that the
-- store draws for it.
use enterprise_communication.Prelude.{ℕ, zero, suc, if◌then◌else◌}
use enterprise_communication.Text.{Text}
use enterprise_communication.Errors.{
  Result, ok, err, credential_unavailable, credential_conflict, unsupported_credential_provider,
}
use enterprise_communication.Storage.UnitOfWork.{Exec, ◌>>=◌, lift, raise}
use enterprise_communication.Credentials.Store.{
  Secret, CommunicationCredentialRecord, Vault, create, is_valid_credential_ref,
  require_supported_provider, require_secret_material,
}

-- The `except` clauses: a conflict goes on to the next attempt.
abbrev pub next_or :
    Exec Vault CommunicationCredentialRecord
    → Result CommunicationCredentialRecord
    → Exec Vault CommunicationCredentialRecord
next_or next (ok r) w = (ok r, w)
next_or next (err credential_conflict) w = next w
next_or next (err unsupported_credential_provider) w = (err unsupported_credential_provider, w)
next_or next (err _) w = (err credential_unavailable, w)

module _ (lower : Text → Text) (generate versions : ℕ → Text) where
  -- One call of the store
  unfoldable pub try_create :
      ℕ
      → Text
      → Secret
      → Exec Vault CommunicationCredentialRecord
      → Exec Vault CommunicationCredentialRecord
  unfolding create
  try_create i slug material next w =
      let (r, w') = create lower (versions i) (generate i) slug material w in next_or next r w'

  unfoldable pub create_attempts : ℕ → ℕ → Text → Secret → Exec Vault CommunicationCredentialRecord
  unfolding try_create is_valid_credential_ref
  create_attempts zero i slug material = raise credential_unavailable
  create_attempts (suc attempts) i slug material =
      let next = create_attempts attempts (suc i) slug material in
      if is_valid_credential_ref (generate i)
      then try_create i slug material next
      else raise credential_unavailable

  -- No attempt at all is refused as the last of them is.
  unfoldable pub create_communication_credential :
      ℕ → Text → Secret → Exec Vault CommunicationCredentialRecord
  unfolding create_attempts require_supported_provider require_secret_material
  create_communication_credential max_attempts provider secret = do
    slug ← lift (require_supported_provider lower provider)
    material ← lift (require_secret_material secret)
    create_attempts max_attempts 0 slug material
