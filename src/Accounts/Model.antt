-- ===== src/Accounts/Model.antt =====
-- The rows of `connector_accounts` and the records that the repository makes of them
-- (app/infrastructure/storage/models.py, app/domain/interfaces/connector_account_repository.py).
use enterprise_communication.Prelude.{ℕ, Bool, Option, List, ◌==◌}
use enterprise_communication.Text.{Text}
use enterprise_communication.Errors.{
  Error, persistence, Result, ok, invalid_value, ◌>>=◌, map_error,
}
use enterprise_communication.Accounts.Capabilities.{
  CommunicationCapability, StoredGrants, parse_stored_communication_capabilities,
}

pub data ConnectorAccountStatus : Type 0 where
  active disconnected reauth_required : ConnectorAccountStatus

abbrev status_index : ConnectorAccountStatus → ℕ
status_index active = 0
status_index disconnected = 1
status_index reauth_required = 2

abbrev pub status_eq : ConnectorAccountStatus → ConnectorAccountStatus → Bool
status_eq a b = status_index a == status_index b

pub record ConnectorAccount : Type 0 where
  pub id : ℕ
  pub user_id : ℕ
  pub provider : Text
  pub external_account_id : Text
  pub credential_ref : Option Text
  pub status : ConnectorAccountStatus
  pub granted_capabilities : StoredGrants
  pub display_identity : Option Text
  pub created_at : ℕ
  pub updated_at : ℕ

pub record ConnectorAccountRecord : Type 0 where
  pub id : ℕ
  pub user_id : ℕ
  pub provider : Text
  pub external_account_id : Text
  pub credential_ref : Option Text
  pub status : ConnectorAccountStatus
  pub created_at : ℕ
  pub updated_at : ℕ
  pub granted_capabilities : Option (List CommunicationCapability)
  pub display_identity : Option Text

-- `except ValueError: raise PersistenceError`
abbrev pub as_persistence : Error → Error
as_persistence invalid_value = persistence
as_persistence e = e

-- `_to_record`
unfoldable pub to_record : ConnectorAccount → Result ConnectorAccountRecord
to_record row = do
  granted ←
      map_error as_persistence (parse_stored_communication_capabilities row.granted_capabilities)
  ok (record {
    id = row.id;
    user_id = row.user_id;
    provider = row.provider;
    external_account_id = row.external_account_id;
    credential_ref = row.credential_ref;
    status = row.status;
    created_at = row.created_at;
    updated_at = row.updated_at;
    granted_capabilities = granted;
    display_identity = row.display_identity;
  })
