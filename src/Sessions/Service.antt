-- ===== src/Sessions/Service.antt =====
-- app/application/services/mailbox_authorization_sessions.py. The random values, their hash and the
-- challenge come from outside, as does the time.
use enterprise_communication.Prelude.{ℕ, ◌+◌, Option, none, some, List, [], ◌∷◌, if◌then◌else◌}
use enterprise_communication.Text.{Text, text, text_eq, strip, is_empty}
use enterprise_communication.Errors.{
  hide_persistence, authorization_session_invalid, unsupported_provider, account_not_found,
  account_conflict, Result, ok, err,
}
use enterprise_communication.Accounts.Capabilities.{
  CommunicationCapability, mail_read, mail_send, given,
  require_requested_communication_capabilities,
}
use enterprise_communication.Accounts.Model.{ConnectorAccountRecord, active}
use enterprise_communication.Accounts.Repository.{get_owned}
use enterprise_communication.Identity.Model.{AuthenticatedPrincipal}
use enterprise_communication.Identity.Resolver.{resolve_or_create}
use enterprise_communication.Storage.Db.{Db}
use enterprise_communication.Storage.UnitOfWork.{
  Exec, ◌>>=◌, ◌>>◌, pure, raise, lift, catch, commit, with_uow,
}
use enterprise_communication.Sessions.Model.{
  MailboxAuthorizationProvider, gmail, microsoft_graph, MailboxAuthorizationPurpose, connect,
  reauthorize, connect_another,
}
use enterprise_communication.Sessions.Repository.{
  ConsumedMailboxAuthorizationSession, create, consume_valid, delete_expired as delete_expired_rows,
}

abbrev pub provider_value : MailboxAuthorizationProvider → Text
provider_value gmail = text "gmail"
provider_value microsoft_graph = text "microsoft_graph"

-- `_parse_provider`
unfoldable pub parse_provider : Text → Result MailboxAuthorizationProvider
parse_provider provider =
    let value = strip provider in
    if text_eq value (provider_value gmail)
    then ok gmail
    else if text_eq value (provider_value microsoft_graph)
    then ok microsoft_graph
    else err unsupported_provider

-- `_parse_purpose`
unfoldable pub parse_purpose : Text → Result MailboxAuthorizationPurpose
parse_purpose purpose =
    let value = strip purpose in
    if text_eq value (text "connect")
    then ok connect
    else if text_eq value (text "reauthorize")
    then ok reauthorize
    else if text_eq value (text "connect_another")
    then ok connect_another
    else err authorization_session_invalid

-- A session that is not for a reauthorization names no account.
abbrev unbound : Option ℕ → Exec Db (Option ℕ)
unbound none = pure none
unbound (some id) = raise authorization_session_invalid

abbrev bound_to : MailboxAuthorizationProvider → Option ConnectorAccountRecord → Exec Db (Option ℕ)
bound_to provider none = raise account_not_found
bound_to provider (some account) =
    if text_eq account.provider (provider_value provider)
    then elim account.status [ active ↦ raise account_conflict | _ ↦ pure (some account.id) ]
    else raise account_not_found

abbrev bound : ℕ → MailboxAuthorizationProvider → Option ℕ → Exec Db (Option ℕ)
bound user_id provider none = raise authorization_session_invalid
bound user_id provider (some id) = do
  account ← catch hide_persistence (with_uow (get_owned id user_id))
  bound_to provider account

-- `_bind_reauthorize_account`
unfoldable pub bind_reauthorize_account :
    ℕ → MailboxAuthorizationProvider → MailboxAuthorizationPurpose → Option ℕ → Exec Db (Option ℕ)
bind_reauthorize_account user_id provider connect account = unbound account
bind_reauthorize_account user_id provider connect_another account = unbound account
bind_reauthorize_account user_id provider reauthorize account = bound user_id provider account

-- `MailboxAuthorizationStartResult`, without its constant method
pub record MailboxAuthorizationStartResult : Type 0 where
  pub authorization_session_id : ℕ
  pub provider : MailboxAuthorizationProvider
  pub state : Text
  pub code_challenge : Text
  pub requested_capabilities : List CommunicationCapability
  pub expires_at : ℕ

module _ (hash_oauth_state code_challenge : Text → Text)
    (now new_user new_identity new_id : ℕ) where
  -- `ttl` is the time to live in the unit of the clock, `state` and `verifier` the random values.
  unfoldable pub start_authorization :
      (ttl : ℕ) (state verifier : Text)
      → AuthenticatedPrincipal
      → Text
      → Text
      → Option ℕ
      → Exec Db MailboxAuthorizationStartResult
  unfolding parse_provider parse_purpose bind_reauthorize_account
  start_authorization ttl state verifier principal provider purpose account = do
    provider_value ← lift (parse_provider provider)
    purpose_value ← lift (parse_purpose purpose)
    requested ←
        lift (require_requested_communication_capabilities (given mail_read ∷ given mail_send ∷ []))
    user_id ← resolve_or_create now new_user new_identity principal
    bound_account_id ← bind_reauthorize_account user_id provider_value purpose_value account
    row ← catch hide_persistence (
        with_uow (do
          saved ← create new_id (record {
            user_id = user_id;
            provider = provider_value;
            purpose = purpose_value;
            connector_account_id = bound_account_id;
            state_hash = hash_oauth_state state;
            pkce_verifier = verifier;
            requested_capabilities = requested;
            created_at = now;
            expires_at = now + ttl;
          })
          commit
          pure saved))
    pure (record {
      authorization_session_id = row.id;
      provider = provider_value;
      state = state;
      code_challenge = code_challenge verifier;
      requested_capabilities = requested;
      expires_at = row.expires_at;
    })

abbrev commit_if : {A : Type 0} → Option A → Exec Db (Option A)
commit_if none = pure none
commit_if (some a) = commit >> pure (some a)

abbrev consumed_or_invalid :
    Option ConsumedMailboxAuthorizationSession → Exec Db ConsumedMailboxAuthorizationSession
consumed_or_invalid none = raise authorization_session_invalid
consumed_or_invalid (some consumed) = pure consumed

unfoldable pub consume_authorization_state :
    (Text → Text) → ℕ → Text → Text → Exec Db ConsumedMailboxAuthorizationSession
unfolding parse_provider consume_valid
consume_authorization_state hash_oauth_state now provider state = do
  provider_value ← lift (parse_provider provider)
  if is_empty state then raise authorization_session_invalid else do
    consumed ← catch hide_persistence (
        with_uow
          (do found ← consume_valid (hash_oauth_state state) provider_value now; commit_if found))
    consumed_or_invalid consumed

unfoldable pub delete_expired : Option ℕ → ℕ → Exec Db ℕ
unfolding delete_expired_rows
delete_expired before now =
    let cutoff : ℕ = elim before [ some t ↦ t | none ↦ now ] in
    catch hide_persistence
      (with_uow (do deleted ← delete_expired_rows cutoff; commit; pure deleted))
