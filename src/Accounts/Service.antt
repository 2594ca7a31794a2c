-- ===== src/Accounts/Service.antt =====
-- `register` and `get_owned` of app/application/services/connector_accounts.py. Logging is left out.
use enterprise_communication.Prelude.{
  ℕ, Bool, false, ◌&&◌, ◌||◌, Option, none, some, List, [], ◌∷◌, all, leb, length, ◌==◌,
  if◌then◌else◌,
}
use enterprise_communication.Text.{Text, is_empty, strip}
use enterprise_communication.Errors.{
  Result, ok, err, persistence, duplicate_account, account_not_found, account_invalid_request,
  hide_persistence,
}
use enterprise_communication.Identity.Model.{AuthenticatedPrincipal}
use enterprise_communication.Identity.Resolver.{resolve_or_create, find_existing}
use enterprise_communication.Storage.Db.{Db}
use enterprise_communication.Storage.UnitOfWork.{
  Exec, ◌>>=◌, ◌>>◌, pure, raise, lift, catch, commit, rollback, with_uow,
}
use enterprise_communication.Accounts.Capabilities.{CommunicationCapability}
use enterprise_communication.Accounts.Model.{
  ConnectorAccountRecord, ConnectorAccountStatus, active, status_eq,
}
use enterprise_communication.Accounts.Repository.{
  NewConnectorAccount, get_owned, find_by_owner_provider_external_account, create, reactivate_owned,
}

pub record ConnectorAccountResult : Type 0 where
  pub id : ℕ
  pub provider : Text
  pub external_account_id : Text
  pub status : ConnectorAccountStatus
  pub granted_capabilities : Option (List CommunicationCapability)
  pub created_at : ℕ
  pub updated_at : ℕ
  pub display_identity : Option Text

-- `_to_result`
unfoldable pub to_result : ConnectorAccountRecord → ConnectorAccountResult
to_result r = record {
  id = r.id;
  provider = r.provider;
  external_account_id = r.external_account_id;
  status = r.status;
  granted_capabilities = r.granted_capabilities;
  created_at = r.created_at;
  updated_at = r.updated_at;
  display_identity = r.display_identity;
}

abbrev is_lower : ℕ → Bool
is_lower c = leb 97 c && leb c 122

abbrev is_slug_character : ℕ → Bool
is_slug_character c = is_lower c || leb 48 c && leb c 57 || c == 95

-- `_PROVIDER_SLUG.fullmatch`
abbrev pub is_slug : Text → Bool
is_slug [] = false
is_slug (c ∷ s) = is_lower c && leb (length s) 62 && all is_slug_character s

-- `_normalize_provider`, `_normalize_external_account_id`, `_normalize_credential_ref`
unfoldable pub normalize_provider : Text → Result Text
normalize_provider provider =
    let slug = strip provider in if is_slug slug then ok slug else err account_invalid_request

unfoldable pub normalize_external_account_id : Text → Result Text
normalize_external_account_id id =
    let value = strip id in if is_empty value then err account_invalid_request else ok value

unfoldable pub normalize_credential_ref : Option Text → Option Text
normalize_credential_ref none = none
normalize_credential_ref (some ref) =
    let value = strip ref in if is_empty value then none else some value

pub data Outcome : Type 0 where
  registered reused reactivated : Outcome

abbrev pub Registration : Type 0
Registration = ConnectorAccountRecord × Outcome

-- The `except` clause of the creation: another session has inserted the account.
abbrev pub or_lost : Result Registration → Exec Db (Option Registration)
or_lost (ok r) = pure (some r)
or_lost (err duplicate_account) = do rollback; pure none
or_lost (err e) = raise e

abbrev pub or_failed : Option ConnectorAccountRecord → Exec Db (Option Registration)
or_failed none = raise persistence
or_failed (some r) = do commit; pure (some (r, reactivated))

abbrev pub winner_of : Option ConnectorAccountRecord → Exec Db Registration
winner_of none = raise persistence
winner_of (some r) = pure (r, reused)

module _ (now new_id user_id : ℕ) (provider external_account_id : Text)
    (credential_ref : Option Text) where
  abbrev pub new_account : NewConnectorAccount
  new_account = record {
    user_id = user_id;
    provider = provider;
    external_account_id = external_account_id;
    credential_ref = credential_ref;
    granted_capabilities = none;
    display_identity = none;
  }

  unfoldable pub register_new : Exec Db (Option Registration)
  unfolding create
  register_new w =
      let (r, w') =
        (do created ← create now new_id new_account; commit; pure (created, registered)) w in
      or_lost r w'

  unfoldable pub reuse : ConnectorAccountRecord → Exec Db (Option Registration)
  unfolding reactivate_owned
  reuse existing = if status_eq existing.status active then pure (some (existing, reused)) else (do
    updated ← reactivate_owned now existing.id user_id credential_ref none false none false
    or_failed updated)

  abbrev pub register_existing : Option ConnectorAccountRecord → Exec Db (Option Registration)
  register_existing none = register_new
  register_existing (some existing) = reuse existing

  abbrev pub or_winner : Option Registration → Exec Db Registration
  or_winner (some r) = pure r
  or_winner none = do
    winner ← with_uow (find_by_owner_provider_external_account user_id provider external_account_id)
    winner_of winner

  -- `_register_or_reuse`, with `_lookup` behind a lost race
  unfoldable pub register_or_reuse : Exec Db Registration
  unfolding find_by_owner_provider_external_account register_new reuse
  register_or_reuse = do
    done ← with_uow (do
      existing ← find_by_owner_provider_external_account user_id provider external_account_id
      register_existing existing)
    or_winner done

unfoldable pub register :
    (now new_user new_identity new_id : ℕ)
    → AuthenticatedPrincipal
    → Text
    → Text
    → Option Text
    → Exec Db ConnectorAccountResult
unfolding register_or_reuse normalize_provider normalize_external_account_id
    normalize_credential_ref to_result
register now new_user new_identity new_id principal provider external_account_id credential_ref = do
  slug ← lift (normalize_provider provider)
  key ← lift (normalize_external_account_id external_account_id)
  user_id ← resolve_or_create now new_user new_identity principal
  (r, outcome) ←
      catch hide_persistence
        (register_or_reuse now new_id user_id slug key (normalize_credential_ref credential_ref))
  pure (to_result r)

abbrev pub or_not_found : {A : Type 0} → Option A → Exec Db A
or_not_found none = raise account_not_found
or_not_found (some a) = pure a

-- `find_existing`, then `_load_owned`
unfoldable pub load_owned : AuthenticatedPrincipal → ℕ → Exec Db (ℕ × ConnectorAccountRecord)
unfolding get_owned
load_owned principal id = do
  found ← find_existing principal
  user_id ← or_not_found found
  loaded ← catch hide_persistence (with_uow (get_owned id user_id))
  r ← or_not_found loaded
  pure (user_id, r)

unfoldable pub get_account : AuthenticatedPrincipal → ℕ → Exec Db ConnectorAccountResult
unfolding load_owned to_result
get_account principal id = do (user_id, r) ← load_owned principal id; pure (to_result r)
