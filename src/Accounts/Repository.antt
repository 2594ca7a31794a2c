-- ===== src/Accounts/Repository.antt =====
-- app/infrastructure/storage/repositories/connector_account.py. `utc_now()` and `uuid4()` are the
-- arguments `now` and `new_id`.
use enterprise_communication.Prelude.{
  ℕ, Bool, true, false, ◌&&◌, ◌||◌, Option, none, some, List, ◌∷◌, any, if◌then◌else◌, ◌==◌,
}
use enterprise_communication.Text.{Text, text_eq}
use enterprise_communication.Errors.{duplicate_account, Result, ok, err, map_error, ◌>>=◌ as ◌then◌}
use enterprise_communication.Accounts.Capabilities.{
  CommunicationCapability, StoredGrants, null, stored, serialize_communication_capabilities,
}
use enterprise_communication.Accounts.Model.{
  ConnectorAccount, ConnectorAccountRecord, active, disconnected, reauth_required, status_eq,
  as_persistence, to_record,
}
use enterprise_communication.Storage.Table.{select_first, update_where, count_where}
use enterprise_communication.Storage.Db.{Db}
use enterprise_communication.Storage.UnitOfWork.{
  Exec, ◌>>=◌, ◌>>◌, pure, raise, lift, query, statement,
}

pub record NewConnectorAccount : Type 0 where
  pub user_id : ℕ
  pub provider : Text
  pub external_account_id : Text
  pub credential_ref : Option Text
  pub granted_capabilities : Option (List CommunicationCapability)
  pub display_identity : Option Text

-- `WHERE id = … AND user_id = …`
abbrev pub is_owned : ℕ → ℕ → ConnectorAccount → Bool
is_owned id user_id row = row.id == id && row.user_id == user_id

abbrev pub is_account_of : ℕ → Text → Text → ConnectorAccount → Bool
is_account_of user_id provider external_account_id row =
    row.user_id == user_id
    && text_eq row.provider provider
    && text_eq row.external_account_id external_account_id

-- `_to_record` of a row that a select may not have found
abbrev pub record_of : Option ConnectorAccount → Result (Option ConnectorAccountRecord)
record_of none = ok none
record_of (some row) = elim (to_record row) [ ok r ↦ ok (some r) | err e ↦ err e ]

unfoldable pub get_owned : ℕ → ℕ → Exec Db (Option ConnectorAccountRecord)
unfolding to_record
get_owned id user_id = do
  row ← query (λ s. select_first (is_owned id user_id) s.accounts)
  lift (record_of row)

unfoldable pub find_by_owner_provider_external_account :
    ℕ → Text → Text → Exec Db (Option ConnectorAccountRecord)
unfolding to_record
find_by_owner_provider_external_account user_id provider external_account_id = do
  row ← query (λ s. select_first (is_account_of user_id provider external_account_id) s.accounts)
  lift (record_of row)

-- The flush inside `begin_nested`, refused by `uq_connector_accounts_user_provider_external_account`.
unfoldable pub insert_account : ConnectorAccount → Exec Db Bool
insert_account row = statement (λ s.
    if any (is_account_of row.user_id row.provider row.external_account_id) s.accounts
    then (false, s)
    else (true, record s { accounts = row ∷ s.accounts }))

abbrev require_inserted : Bool → Exec Db (Unit {0})
require_inserted true = pure tt
require_inserted false = raise duplicate_account

unfoldable pub new_row : ℕ → ℕ → NewConnectorAccount → Option (List Text) → ConnectorAccount
new_row now new_id account granted = record {
  id = new_id;
  user_id = account.user_id;
  provider = account.provider;
  external_account_id = account.external_account_id;
  credential_ref = account.credential_ref;
  status = active;
  granted_capabilities = stored granted;
  display_identity = account.display_identity;
  created_at = now;
  updated_at = now;
}

unfoldable pub create : ℕ → ℕ → NewConnectorAccount → Exec Db ConnectorAccountRecord
unfolding insert_account new_row to_record
create now new_id account = do
  granted ←
      lift (
        map_error as_persistence
          (serialize_communication_capabilities account.granted_capabilities))
  inserted ← insert_account (new_row now new_id account granted)
  require_inserted inserted
  lift (to_record (new_row now new_id account granted))

-- A conditional UPDATE and the record that it returns: `None` unless one row was written.
unfoldable pub update_accounts :
    (ConnectorAccount → Bool) → (ConnectorAccount → ConnectorAccount) → Exec Db ℕ
update_accounts p f =
    statement (λ s. (count_where p s.accounts, record s { accounts = update_where p f s.accounts }))

unfoldable pub reload : ℕ → ℕ → ℕ → Exec Db (Option ConnectorAccountRecord)
reload id user_id rowcount = if rowcount == 1 then get_owned id user_id else pure none

module _ (now id user_id : ℕ) where
  abbrev pub disconnect_values : ConnectorAccount → ConnectorAccount
  disconnect_values row = record row {
    status = disconnected;
    credential_ref = none;
    granted_capabilities = null;
    updated_at = now;
  }

  unfoldable pub disconnect_owned : Exec Db (Option ConnectorAccountRecord)
  unfolding update_accounts reload get_owned
  disconnect_owned = do
    rowcount ← update_accounts (is_owned id user_id) disconnect_values
    reload id user_id rowcount

  abbrev pub is_owned_active : ConnectorAccount → Bool
  is_owned_active row = is_owned id user_id row && status_eq row.status active

  unfoldable pub mark_reauth_required_owned : Exec Db (Option ConnectorAccountRecord)
  unfolding update_accounts reload get_owned
  mark_reauth_required_owned = do
    rowcount ←
        update_accounts is_owned_active
          (λ row. record row { status = reauth_required; updated_at = now })
    reload id user_id rowcount

  abbrev pub is_owned_inactive : ConnectorAccount → Bool
  is_owned_inactive row =
      is_owned id user_id row
      && (status_eq row.status disconnected || status_eq row.status reauth_required)

  -- `granted` and `shown` are the values to write if the caller replaces them.
  abbrev pub reactivate_values :
      Option Text → Option StoredGrants → Option (Option Text) → ConnectorAccount → ConnectorAccount
  reactivate_values credential_ref granted shown row = record row {
    status = active;
    credential_ref = credential_ref;
    updated_at = now;
    granted_capabilities = elim granted [ some g ↦ g | none ↦ row.granted_capabilities ];
    display_identity = elim shown [ some d ↦ d | none ↦ row.display_identity ];
  }

  abbrev replacement : Bool → Option (List CommunicationCapability) → Result (Option StoredGrants)
  replacement false granted = ok none
  replacement true granted =
      elim (map_error as_persistence (serialize_communication_capabilities granted)) [
        | ok texts ↦ ok (some (stored texts))
        | err e ↦ err e
      ]

  unfoldable pub reactivate_owned :
      Option Text
      → Option (List CommunicationCapability)
      → Bool
      → Option Text
      → Bool
      → Exec Db (Option ConnectorAccountRecord)
  unfolding update_accounts reload get_owned
  reactivate_owned credential_ref granted replace_granted shown replace_shown = do
    grants ← lift (replacement replace_granted granted)
    let identity : Option (Option Text) = if replace_shown then some shown else none
    rowcount ← update_accounts is_owned_inactive (reactivate_values credential_ref grants identity)
    reload id user_id rowcount
