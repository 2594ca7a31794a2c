-- ===== src/Sessions/Model.antt =====
-- The rows of `mailbox_authorization_sessions` and their enumerations (app/domain/enums.py).
use enterprise_communication.Prelude.{ℕ, Option, ◌==◌, Bool}
use enterprise_communication.Text.{Text}
use enterprise_communication.Accounts.Capabilities.{StoredGrants}

pub data MailboxAuthorizationProvider : Type 0 where
  gmail microsoft_graph : MailboxAuthorizationProvider

pub data MailboxAuthorizationPurpose : Type 0 where
  connect reauthorize connect_another : MailboxAuthorizationPurpose

abbrev provider_index : MailboxAuthorizationProvider → ℕ
provider_index gmail = 0
provider_index microsoft_graph = 1

abbrev pub provider_eq : MailboxAuthorizationProvider → MailboxAuthorizationProvider → Bool
provider_eq a b = provider_index a == provider_index b

pub record MailboxAuthorizationSession : Type 0 where
  pub id : ℕ
  pub user_id : ℕ
  pub provider : MailboxAuthorizationProvider
  pub purpose : MailboxAuthorizationPurpose
  pub connector_account_id : Option ℕ
  pub state_hash : Text
  pub pkce_verifier : Option Text
  pub requested_capabilities : StoredGrants
  pub created_at : ℕ
  pub expires_at : ℕ
  pub consumed_at : Option ℕ
