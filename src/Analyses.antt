-- ===== src/Analyses.antt =====
-- The rows of `analyses` (app/infrastructure/storage/models.py) as far as the workflow reads them.
-- Priority, summary and the other columns that only the presentation reads are left out.
use enterprise_communication.Prelude.{ℕ, Option, List}
use enterprise_communication.Text.{Text}

-- A JSON value under a key of a stored object: a string, or one that is not.
pub data JsonValue : Type 0 where
  string : Text → JsonValue
  other : JsonValue

pub record Analysis : Type 0 where
  pub id : ℕ
  pub user_id : ℕ
  pub message_id : Option Text
  pub draft_reply : Option (List (Text × JsonValue))
  pub connector_account_id : Option ℕ
