-- ===== src/AccountTests.antt =====
-- Concrete runs of the disconnection of an account, of its registration, and of the creation of
-- credentials.
use enterprise_communication.Prelude.{ℕ, ◌+◌, ◌≡◌, refl, true, none, some, [], ◌∷◌}
use enterprise_communication.Text.{Text, text}
use enterprise_communication.Errors.{ok}
use enterprise_communication.Storage.Db.{Db}
use enterprise_communication.Storage.UnitOfWork.{World, query, commit, with_uow}
use enterprise_communication.Storage.Keeps.{Keeps}
use enterprise_communication.Storage.Yields.{Yields}
use enterprise_communication.Credentials.Store.{CommunicationCredentialRecord, Vault}
use enterprise_communication.Credentials.Locators.{create_communication_credential}
use enterprise_communication.Credentials.Fresh.{IsFresh, create_communication_credential-IsFresh}
use enterprise_communication.Credentials.Creating.{Holds}
use enterprise_communication.Identity.Resolver.{find_existing, get_user_id_by_external_identity}
use enterprise_communication.Accounts.Capabilities.{parse_stored_communication_capabilities}
use enterprise_communication.Accounts.Model.{disconnected}
use enterprise_communication.Accounts.Service.{to_result}
use enterprise_communication.Accounts.Disconnection.{Disconnected, disconnect}
use enterprise_communication.Accounts.Disconnecting.{IsCleared, disconnect-IsCleared}
use enterprise_communication.Tests.{owner, rows}

abbrev mailbox_secret : CommunicationCredentialRecord
mailbox_secret = record {
  credential_ref = text "ref";
  provider = text "gmail";
  version = text "v";
  secret_material = 7 ∷ [];
}

abbrev vault : Vault
vault = record { records = mailbox_secret ∷ []; cache = [] }

abbrev undisturbed : World Db
undisturbed = record { pending = rows; durable = rows; turns = [] }

abbrev undisturbed_vault : World Vault
undisturbed_vault = record { pending = vault; durable = vault; turns = [] }

abbrev disconnection : Disconnected
disconnection = (
  record {
    id = 3;
    provider = text "gmail";
    external_account_id = text "a@b.c";
    status = disconnected;
    granted_capabilities = none;
    created_at = 0;
    updated_at = 9;
    display_identity = none;
  },
  some (text "gmail", 7 ∷ []),
)

disconnected_mailbox :
    (disconnect 9 3 true owner undisturbed undisturbed_vault).0 ≡ ok disconnection
unfolding disconnect find_existing with_uow get_user_id_by_external_identity query
    parse_stored_communication_capabilities commit to_result
disconnected_mailbox = refl

disconnect-IsCleared_example :
    IsCleared owner 3 undisturbed (disconnect 9 3 true owner undisturbed undisturbed_vault).2
disconnect-IsCleared_example =
    disconnect-IsCleared 9 3 true owner undisturbed undisturbed_vault disconnection
      disconnected_mailbox

-- The first locator is taken, the second is free.
abbrev generated : ℕ → Text
generated i = 97 ∷ (97 + i) ∷ []

abbrev taken : CommunicationCredentialRecord
taken = record mailbox_secret { credential_ref = generated 0 }

abbrev OthersKeep : (Vault → Vault) → Type 0
OthersKeep g = (v : Vault) → Holds taken v → Holds taken (g v)

create_communication_credential-IsFresh_example :
    Keeps OthersKeep
      (Holds taken)
      (create_communication_credential (λ s. s) generated (λ i. text "v") 5 (text "gmail") (7 ∷ []))
    × Yields
        (λ (w : World Vault). Unit)
        (create_communication_credential
          (λ s. s)
          generated
          (λ i. text "v")
          5
          (text "gmail")
          (7 ∷ []))
        (IsFresh (λ s. s) generated (λ i. text "v") 0 5)
create_communication_credential-IsFresh_example =
    create_communication_credential-IsFresh (λ s. s) generated (λ i. text "v") {R = OthersKeep} 5
      (text "gmail") (7 ∷ []) taken (record { keeps = λ g k v h. k v h })
