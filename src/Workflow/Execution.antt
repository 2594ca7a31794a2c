-- ===== src/Workflow/Execution.antt =====
-- app/application/services/workflow_action_execution.py, with the routing test of
-- app/infrastructure/executors/factory.py. The providers' write APIs and the secret stores lie
-- outside: `resolves` says which locators give a token callable, `executor` how a call ends.
use enterprise_communication.Prelude.{
  ℕ, Bool, true, false, not, ◌&&◌, ◌||◌, Option, none, some, List, [], ◌∷◌, if◌then◌else◌,
}
use enterprise_communication.Text.{Text, text, text_eq, strip, is_empty, require_non_empty_text}
use enterprise_communication.Errors.{
  Error, persistence, unexpected, action_not_found, action_not_executable, hide_persistence, Result,
  ok, err,
}
use enterprise_communication.Accounts.Model.{
  ConnectorAccountRecord, active, status_eq as account_status_eq,
}
use enterprise_communication.Accounts.Capabilities.{is_mail_send_executable}
use enterprise_communication.Accounts.Repository.{
  get_owned as get_owned_account, mark_reauth_required_owned,
}
use enterprise_communication.Identity.Model.{AuthenticatedPrincipal}
use enterprise_communication.Storage.Db.{Db}
use enterprise_communication.Storage.UnitOfWork.{
  World, Exec, ◌>>=◌, ◌>>◌, pure, raise, lift, catch, commit, with_uow,
}
use enterprise_communication.Workflow.Model.{
  WorkflowAction, WorkflowActionType, approved, executing, status_eq, has_execution_target,
  mark_executing, mark_executed, mark_failed,
}
use enterprise_communication.Workflow.Repository.{get_owned, save_owned, require_save_success}
use enterprise_communication.Workflow.Service.{or_raise, require_existing_user}

-- `CommunicationActionExecution`
pub record CommunicationActionExecution : Type 0 where
  pub action_id : ℕ
  pub action_type : WorkflowActionType
  pub approved_reply_body : Text
  pub connector_account_id : ℕ
  pub provider_message_id : Text
  pub provider : Text

-- How `executor.execute(command)` ends: it returns, raises one of the two expected errors, or
-- raises anything else.
pub data ExecutorOutcome : Type 0 where
  delivered reauthorization_required execution_failed escaped : ExecutorOutcome

-- `_connector_account_is_usable`
unfoldable pub connector_account_is_usable : Option ConnectorAccountRecord → Bool
connector_account_is_usable none = false
connector_account_is_usable (some account) =
    account_status_eq account.status active && is_mail_send_executable account.granted_capabilities

abbrev has_locator : Option Text → Bool
has_locator none = false
has_locator (some ref) = not (is_empty (strip ref))

abbrev resolves_locator : (Text → Text → Bool) → Option Text → Text → Bool
resolves_locator resolves none provider = false
resolves_locator resolves (some ref) provider = resolves ref provider

-- `create_for_account`: whether it returns an executor
unfoldable pub creates_for_account : (Text → Text → Bool) → ConnectorAccountRecord → Bool
creates_for_account resolves account =
    (text_eq account.provider (text "gmail") || text_eq account.provider (text "microsoft_graph"))
    && has_locator account.credential_ref
    && resolves_locator resolves account.credential_ref account.provider

abbrev or_persistence : {A : Type 0} → Option A → Result A
or_persistence none = err persistence
or_persistence (some a) = ok a

-- `_execution_command`, the model's validators included
unfoldable pub execution_command : WorkflowAction → Text → Exec Db CommunicationActionExecution
execution_command action provider = do
  stored_body ← lift (or_persistence action.approved_reply_body)
  account ← lift (or_persistence action.connector_account_id)
  stored_message ← lift (or_persistence action.provider_message_id)
  body ← lift (require_non_empty_text stored_body)
  message ← lift (require_non_empty_text stored_message)
  slug ← lift (require_non_empty_text provider)
  pure (record {
    action_id = action.id;
    action_type = action.action_type;
    approved_reply_body = body;
    connector_account_id = account;
    provider_message_id = message;
    provider = slug;
  })

abbrev pub guard : Bool → Error → Exec Db (Unit {0})
guard true e = pure tt
guard false e = raise e

module _ (resolves : Text → Text → Bool) where
  -- the body of `_commit_executing`, from the loaded action on
  unfoldable pub start_execution : ℕ → WorkflowAction → Exec Db CommunicationActionExecution
  unfolding connector_account_is_usable creates_for_account
  start_execution user_id loaded = do
    action ← lift (if status_eq loaded.status approved then ok loaded else mark_executing loaded)
    guard (has_execution_target action) action_not_executable
    account_id ← or_raise action_not_executable action.connector_account_id
    found ← get_owned_account account_id user_id
    guard (connector_account_is_usable found) action_not_executable
    account ← or_raise action_not_executable found
    guard (creates_for_account resolves account) action_not_executable
    moved ← lift (mark_executing action)
    result ← save_owned moved approved
    saved ← lift (require_save_success result)
    command ← execution_command saved account.provider
    commit
    pure command

  unfoldable pub commit_executing : ℕ → ℕ → Exec Db CommunicationActionExecution
  unfolding start_execution
  commit_executing user_id action_id = catch hide_persistence (
      with_uow (do
        row ← get_owned action_id user_id
        loaded ← or_raise action_not_found row
        start_execution user_id loaded))

-- The part that `_commit_terminal` and `_commit_reauth_required_failure` share.
unfoldable pub finish_execution :
    (WorkflowAction → Result WorkflowAction) → ℕ → ℕ → Exec Db WorkflowAction
finish_execution apply user_id action_id = do
  row ← get_owned action_id user_id
  action ← or_raise action_not_found row
  moved ← lift (apply action)
  result ← save_owned moved executing
  saved ← lift (require_save_success result)
  commit
  pure saved

module _ (now : ℕ) where
  unfoldable pub commit_terminal : Bool → ℕ → ℕ → Exec Db WorkflowAction
  unfolding finish_execution
  commit_terminal succeeded user_id action_id = catch hide_persistence (
      with_uow (
        finish_execution (if succeeded then mark_executed now else mark_failed now) user_id
          action_id))

  unfoldable pub commit_reauth_required_failure : ℕ → ℕ → ℕ → Exec Db WorkflowAction
  unfolding finish_execution
  commit_reauth_required_failure user_id action_id account_id = catch hide_persistence (
      with_uow (do
        mark_reauth_required_owned now account_id user_id
        finish_execution (mark_failed now) user_id action_id))

  -- What follows the call of the executor.
  unfoldable pub record_outcome :
      ExecutorOutcome → ℕ → CommunicationActionExecution → ℕ → Exec Db WorkflowAction
  unfolding commit_terminal commit_reauth_required_failure
  record_outcome delivered user_id command action_id = commit_terminal true user_id action_id
  record_outcome reauthorization_required user_id command action_id =
      commit_reauth_required_failure user_id action_id command.connector_account_id
  record_outcome execution_failed user_id command action_id =
      commit_terminal false user_id action_id
  record_outcome escaped user_id command action_id = raise unexpected

-- A run of `execute`: the commands that it has handed to an executor, its result, and the world.
pub record Run : Type 0 where
  pub sent : List CommunicationActionExecution
  pub result : Result WorkflowAction
  pub world : World Db

module _ (resolves : Text → Text → Bool) (executor : CommunicationActionExecution → ExecutorOutcome)
    (now : ℕ) (action_id : ℕ) where
  unfoldable pub prepare : AuthenticatedPrincipal → Exec Db (ℕ × CommunicationActionExecution)
  unfolding commit_executing
  prepare principal = do
    user_id ← require_existing_user principal
    command ← commit_executing resolves user_id action_id
    pure (user_id, command)

  unfoldable pub deliver : Result (ℕ × CommunicationActionExecution) → World Db → Run
  unfolding record_outcome
  deliver (err e) w = record { sent = []; result = err e; world = w }
  deliver (ok (user_id, command)) w =
      let (result, w') = record_outcome now (executor command) user_id command action_id w in
      record { sent = command ∷ []; result = result; world = w' }

  unfoldable pub execute : AuthenticatedPrincipal → World Db → Run
  unfolding prepare deliver
  execute principal w = let (prepared, w') = prepare principal w in deliver prepared w'
