-- ===== src/Sessions/Repository.antt =====
-- app/infrastructure/storage/repositories/mailbox_authorization_session.py. The columns `provider`
-- and `purpose` hold values of their enumerations.
use enterprise_communication.Prelude.{
  ℕ, Bool, true, false, ◌&&◌, Option, none, some, List, [], ◌∷◌, ◌==◌, any, ltb, leb, if◌then◌else◌,
  present,
}
use enterprise_communication.Text.{Text, text_eq, is_empty}
use enterprise_communication.Errors.{persistence, Result, ok, err, map_error}
use enterprise_communication.Accounts.Model.{as_persistence}
use enterprise_communication.Accounts.Capabilities.{
  CommunicationCapability, CapabilityItem, given, stored, parse_stored_communication_capabilities,
  require_requested_communication_capabilities, serialize_communication_capabilities,
}
use enterprise_communication.Storage.Table.{select_all, update_where, count_where, delete_where}
use enterprise_communication.Storage.Db.{Db}
use enterprise_communication.Storage.UnitOfWork.{Exec, ◌>>=◌, pure, raise, lift, catch, statement}
use enterprise_communication.Sessions.Model.{
  MailboxAuthorizationProvider, MailboxAuthorizationPurpose, provider_eq,
  MailboxAuthorizationSession,
}

-- `NewMailboxAuthorizationSession`
pub record NewMailboxAuthorizationSession : Type 0 where
  pub user_id : ℕ
  pub provider : MailboxAuthorizationProvider
  pub purpose : MailboxAuthorizationPurpose
  pub connector_account_id : Option ℕ
  pub state_hash : Text
  pub pkce_verifier : Text
  pub requested_capabilities : List CommunicationCapability
  pub created_at : ℕ
  pub expires_at : ℕ

-- `ConsumedMailboxAuthorizationSession`
pub record ConsumedMailboxAuthorizationSession : Type 0 where
  pub authorization_session_id : ℕ
  pub user_id : ℕ
  pub provider : MailboxAuthorizationProvider
  pub purpose : MailboxAuthorizationPurpose
  pub connector_account_id : Option ℕ
  pub pkce_verifier : Text
  pub requested_capabilities : List CommunicationCapability

-- `_to_record`: the row itself, if its grants can be read.
abbrev readable :
    Option (List CommunicationCapability)
    → MailboxAuthorizationSession
    → Result MailboxAuthorizationSession
readable none row = err persistence
readable (some capabilities) row = ok row

unfoldable pub to_record : MailboxAuthorizationSession → Result MailboxAuthorizationSession
to_record row =
    elim (map_error as_persistence
      (parse_stored_communication_capabilities row.requested_capabilities)) [
        | ok granted ↦ readable granted row
        | err e ↦ err e
      ]

-- The flush inside `begin_nested`: the constraints on `id` and `state_hash` refuse the row.
abbrev collides : MailboxAuthorizationSession → MailboxAuthorizationSession → Bool
collides new row = if row.id == new.id then true else text_eq row.state_hash new.state_hash

unfoldable pub insert_session : MailboxAuthorizationSession → Exec Db Bool
insert_session new = statement (λ s.
    if any (collides new) s.sessions
    then (false, s)
    else (true, record s { sessions = new ∷ s.sessions }))

abbrev as_given : List CommunicationCapability → List CapabilityItem
as_given [] = []
as_given (c ∷ cs) = given c ∷ as_given cs

unfoldable pub create : ℕ → NewMailboxAuthorizationSession → Exec Db MailboxAuthorizationSession
unfolding insert_session to_record
create new_id session = do
  capabilities ←
      lift (require_requested_communication_capabilities (as_given session.requested_capabilities))
  serialized ← lift (serialize_communication_capabilities (some capabilities))
  let row : MailboxAuthorizationSession = record {
    id = new_id;
    user_id = session.user_id;
    provider = session.provider;
    purpose = session.purpose;
    connector_account_id = session.connector_account_id;
    state_hash = session.state_hash;
    pkce_verifier = some session.pkce_verifier;
    requested_capabilities = stored serialized;
    created_at = session.created_at;
    expires_at = session.expires_at;
    consumed_at = none;
  }
  inserted ← insert_session row
  if inserted then lift (to_record row) else raise persistence

module _ (state_hash : Text) (provider : MailboxAuthorizationProvider) (now : ℕ) where
  -- the `WHERE` of the conditional update
  abbrev pub is_valid : MailboxAuthorizationSession → Bool
  is_valid row =
      text_eq row.state_hash state_hash
      && provider_eq row.provider provider
      && (if present row.consumed_at then false else true)
      && ltb now row.expires_at
      && present row.pkce_verifier

  -- `UPDATE … RETURNING`
  unfoldable pub consume : Exec Db (List MailboxAuthorizationSession)
  consume = statement (λ s. (
    select_all is_valid s.sessions,
    record s {
      sessions = update_where is_valid (λ row. record row { consumed_at = some now }) s.sessions;
    },
  ))

-- `one_or_none`: it raises when there is more than one row.
unfoldable pub one_or_none :
    List MailboxAuthorizationSession → Result (Option MailboxAuthorizationSession)
one_or_none [] = ok none
one_or_none (row ∷ []) = ok (some row)
one_or_none (row ∷ next ∷ rows) = err persistence

unfoldable pub clear_verifier : ℕ → Exec Db ℕ
clear_verifier id = statement (λ s. (
  count_where (λ row. row.id == id) s.sessions,
  record s {
    sessions =
        update_where (λ row. row.id == id) (λ row. record row { pkce_verifier = none }) s.sessions;
  },
))

-- From the update that clears the verifier on
unfoldable pub hand_out :
    MailboxAuthorizationSession
    → Text
    → List CommunicationCapability
    → Exec Db (Option ConsumedMailboxAuthorizationSession)
unfolding clear_verifier
hand_out row verifier capabilities = do
  rowcount ← catch (λ _. persistence) (clear_verifier row.id)
  if rowcount == 1
      then pure (
          some (record {
            authorization_session_id = row.id;
            user_id = row.user_id;
            provider = row.provider;
            purpose = row.purpose;
            connector_account_id = row.connector_account_id;
            pkce_verifier = verifier;
            requested_capabilities = capabilities;
          }))
      else raise persistence

abbrev hand_out_granted :
    MailboxAuthorizationSession
    → Text
    → Result (Option (List CommunicationCapability))
    → Exec Db (Option ConsumedMailboxAuthorizationSession)
hand_out_granted row verifier (ok (some capabilities)) =
    if is_empty verifier then pure none else hand_out row verifier capabilities
hand_out_granted row verifier _ = pure none

abbrev hand_out_row :
    Option MailboxAuthorizationSession → Exec Db (Option ConsumedMailboxAuthorizationSession)
hand_out_row none = pure none
hand_out_row (some row) = elim row.pkce_verifier [
  | none ↦ pure none
  | some verifier ↦
      hand_out_granted row verifier
        (parse_stored_communication_capabilities row.requested_capabilities)
]

unfoldable pub consume_valid :
    Text → MailboxAuthorizationProvider → ℕ → Exec Db (Option ConsumedMailboxAuthorizationSession)
unfolding consume one_or_none
consume_valid state_hash provider now = do
  rows ← catch (λ _. persistence) (consume state_hash provider now)
  row ← lift (one_or_none rows)
  hand_out_row row

unfoldable pub delete_expired : ℕ → Exec Db ℕ
delete_expired before = statement (λ s. (
  count_where (λ row. leb row.expires_at before) s.sessions,
  record s { sessions = delete_where (λ row. leb row.expires_at before) s.sessions },
))
