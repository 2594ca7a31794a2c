-- ===== src/Identity/Model.antt =====
-- The rows of `users` and `external_identities` (app/infrastructure/storage/models.py), and the
-- verified principal of app/core/security.py as far as the identity mapping reads it.
use enterprise_communication.Prelude.{ℕ, List}
use enterprise_communication.Text.{Text}

pub data ApplicationRole : Type 0 where
  user owner : ApplicationRole

pub record User : Type 0 where
  pub id : ℕ
  pub application_role : ApplicationRole
  pub updated_at : ℕ

pub record ExternalIdentity : Type 0 where
  pub id : ℕ
  pub user_id : ℕ
  pub issuer : Text
  pub subject : Text

pub record AuthenticatedPrincipal : Type 0 where
  pub issuer : Text
  pub subject : Text
  pub permissions : List Text
