-- ===== src/Accounts/Disconnection.antt =====
-- `disconnect_owned` of app/application/services/connector_accounts.py, over the database and the
-- store of secrets.
use enterprise_communication.Prelude.{ℕ, Bool, not, Option, none, some, if◌then◌else◌}
use enterprise_communication.Text.{Text, is_empty}
use enterprise_communication.Errors.{Error, Result, ok, err, service_unavailable, hide_persistence}
use enterprise_communication.Identity.Model.{AuthenticatedPrincipal}
use enterprise_communication.Storage.Db.{Db}
use enterprise_communication.Storage.UnitOfWork.{
  World, Exec, ◌>>=◌, ◌>>◌, pure, raise, catch, commit, with_uow,
}
use enterprise_communication.Credentials.Store.{
  Secret, CommunicationCredentialRecord, Vault, get, delete,
}
use enterprise_communication.Accounts.Model.{ConnectorAccountRecord}
use enterprise_communication.Accounts.Repository.{disconnect_owned}
use enterprise_communication.Accounts.Service.{
  ConnectorAccountResult, to_result, or_not_found, load_owned,
}

abbrev pub as_unavailable : Error → Error
as_unavailable e = service_unavailable

abbrev secret_of : Option CommunicationCredentialRecord → Option Secret
secret_of none = none
secret_of (some r) = some r.secret_material

-- `_delete_stored_credential`; `connected` is false where the service has no store.
unfoldable pub delete_stored_credential : Bool → Text → Exec Vault (Option Secret)
unfolding get delete
delete_stored_credential connected locator =
    if not connected
    then raise service_unavailable
    else catch as_unavailable (do stored ← get locator; delete locator; pure (secret_of stored))

abbrev pub clear : Bool → Option Text → Exec Vault (Option Secret)
clear connected none = pure none
clear connected (some locator) =
    if is_empty locator then pure none else delete_stored_credential connected locator

abbrev commit_if : Option ConnectorAccountRecord → Exec Db (Option ConnectorAccountRecord)
commit_if none = pure none
commit_if (some r) = do commit; pure (some r)

-- The transaction of `disconnect_owned`
unfoldable pub disconnect_row : (now id user_id : ℕ) → Exec Db ConnectorAccountRecord
unfolding disconnect_owned
disconnect_row now id user_id = do
  updated ← catch hide_persistence (with_uow (do r ← disconnect_owned now id user_id; commit_if r))
  or_not_found updated

-- The result, and the grant that the revoker of the provider is handed, whose failure is ignored
abbrev pub Disconnected : Type 0
Disconnected = ConnectorAccountResult × Option (Text × Secret)

abbrev grant_of : Text → Option Secret → Option (Text × Secret)
grant_of provider none = none
grant_of provider (some secret) = some (provider, secret)

abbrev pub finished :
    ConnectorAccountRecord
    → Option Secret
    → World Vault
    → Result ConnectorAccountRecord × World Db
    → Result Disconnected × World Db × World Vault
finished r secret v (ok updated, d) = (ok (to_result updated, grant_of r.provider secret), d, v)
finished r secret v (err e, d) = (err e, d, v)

-- With the secret gone, or none to go, the row is disconnected.
abbrev pub after_clear :
    (now id : ℕ)
    → World Db
    → ℕ × ConnectorAccountRecord
    → Result (Option Secret) × World Vault
    → Result Disconnected × World Db × World Vault
after_clear now id d loaded (err e, v) = (err e, d, v)
after_clear now id d (user_id, r) (ok secret, v) =
    finished r secret v (disconnect_row now id user_id d)

abbrev pub after_load :
    (now id : ℕ)
    → Bool
    → World Vault
    → Result (ℕ × ConnectorAccountRecord) × World Db
    → Result Disconnected × World Db × World Vault
after_load now id connected v (err e, d) = (err e, d, v)
after_load now id connected v (ok (user_id, r), d) =
    after_clear now id d (user_id, r) (clear connected r.credential_ref v)

-- `disconnect_owned` over the database and the store of secrets
unfoldable pub disconnect :
    (now id : ℕ)
    → Bool
    → AuthenticatedPrincipal
    → World Db
    → World Vault
    → Result Disconnected × World Db × World Vault
unfolding load_owned disconnect_row delete_stored_credential
disconnect now id connected principal d v =
    after_load now id connected v (load_owned principal id d)
