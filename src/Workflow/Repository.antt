-- ===== src/Workflow/Repository.antt =====
-- app/infrastructure/storage/repositories/workflow_action.py. A row has the columns of the
-- aggregate; reading one rehydrates it.
use enterprise_communication.Prelude.{
  ℕ, Bool, ◌&&◌, Option, none, some, ◌∷◌, if◌then◌else◌, ◌==◌, any, true, false,
}
use enterprise_communication.Errors.{
  Error, persistence, invalid_value, action_not_found, action_conflict, Result, ok, err, map_error,
}
use enterprise_communication.Storage.Table.{select_first, update_where, count_where}
use enterprise_communication.Storage.Db.{Db}
use enterprise_communication.Storage.UnitOfWork.{
  Exec, ◌>>=◌, pure, raise, lift, catch, query, statement,
}
use enterprise_communication.Workflow.Model.{
  WorkflowAction, WorkflowActionStatus, status_eq, rehydrate,
}

-- `except (ValidationError, ValueError): raise PersistenceError`
abbrev pub as_invalid_stored : Error → Error
as_invalid_stored invalid_value = persistence
as_invalid_stored e = e

-- `_to_domain`
unfoldable pub to_domain : WorkflowAction → Result WorkflowAction
unfolding rehydrate
to_domain row = map_error as_invalid_stored (rehydrate row)

abbrev pub domain_of : Option WorkflowAction → Result (Option WorkflowAction)
domain_of none = ok none
domain_of (some row) = elim (to_domain row) [ ok a ↦ ok (some a) | err e ↦ err e ]

abbrev pub is_owned : ℕ → ℕ → WorkflowAction → Bool
is_owned action_id user_id row = row.id == action_id && row.owner_user_id == user_id

unfoldable pub get_owned : ℕ → ℕ → Exec Db (Option WorkflowAction)
unfolding to_domain
get_owned action_id user_id = do
  row ← query (λ s. select_first (is_owned action_id user_id) s.actions)
  lift (domain_of row)

-- The flush inside `begin_nested`: the primary key refuses a second row of the same id.
unfoldable pub insert_action : WorkflowAction → Exec Db Bool
insert_action action = statement (λ s.
    if any (λ row. row.id == action.id) s.actions
    then (false, s)
    else (true, record s { actions = action ∷ s.actions }))

unfoldable pub add : WorkflowAction → Exec Db WorkflowAction
unfolding insert_action to_domain
add action = do
  inserted ← insert_action action
  if inserted then lift (to_domain action) else raise persistence

pub data WorkflowActionSaveResult : Type 0 where
  success : WorkflowAction → WorkflowActionSaveResult
  not_found conflict : WorkflowActionSaveResult

-- `WHERE id = … AND user_id = … AND status = expected`
abbrev pub is_expected : WorkflowAction → WorkflowActionStatus → WorkflowAction → Bool
is_expected action expected row =
    is_owned action.id action.owner_user_id row && status_eq row.status expected

-- the columns of `.values(...)`
abbrev pub lifecycle_values : WorkflowAction → WorkflowAction → WorkflowAction
lifecycle_values action row = record row {
  status = action.status;
  approved_reply_body = action.approved_reply_body;
  approved_at = action.approved_at;
  rejected_at = action.rejected_at;
  executed_at = action.executed_at;
  failed_at = action.failed_at;
}

unfoldable pub update_lifecycle : WorkflowAction → WorkflowActionStatus → Exec Db ℕ
update_lifecycle action expected = statement (λ s. (
  count_where (is_expected action expected) s.actions,
  record s {
    actions = update_where (is_expected action expected) (lifecycle_values action) s.actions;
  },
))

abbrev pub written : Option WorkflowAction → Exec Db WorkflowActionSaveResult
written none = raise persistence
written (some loaded) = pure (success loaded)

abbrev pub unwritten : Option WorkflowAction → Exec Db WorkflowActionSaveResult
unwritten none = pure not_found
unwritten (some existing) = pure conflict

unfoldable pub save_owned : WorkflowAction → WorkflowActionStatus → Exec Db WorkflowActionSaveResult
unfolding update_lifecycle get_owned
save_owned action expected = do
  rowcount ← catch (λ _. persistence) (update_lifecycle action expected)
  row ← get_owned action.id action.owner_user_id
  if rowcount == 1 then written row else unwritten row

-- `_require_save_success` of both services
unfoldable pub require_save_success : WorkflowActionSaveResult → Result WorkflowAction
require_save_success (success a) = ok a
require_save_success not_found = err action_not_found
require_save_success conflict = err action_conflict
