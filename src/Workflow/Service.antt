-- ===== src/Workflow/Service.antt =====
-- app/application/services/workflow_actions.py: proposing, approving and rejecting. `now` is
-- `datetime.now(UTC)` and `new_id` is `uuid4()`.
use enterprise_communication.Prelude.{ℕ, Option, none, some, List, [], ◌∷◌, if◌then◌else◌}
use enterprise_communication.Text.{Text, text, text_eq, require_non_empty_text}
use enterprise_communication.Errors.{
  Error, analysis_not_found, analysis_has_no_draft_reply, action_not_found, hide_persistence,
  Result, err, map_error,
}
use enterprise_communication.Analyses.{Analysis, JsonValue, string, other}
use enterprise_communication.Identity.Model.{AuthenticatedPrincipal}
use enterprise_communication.Identity.Resolver.{find_existing}
use enterprise_communication.Storage.Table.{select_first}
use enterprise_communication.Storage.Db.{Db}
use enterprise_communication.Storage.UnitOfWork.{
  Exec, ◌>>=◌, ◌>>◌, pure, raise, lift, catch, query, commit, with_uow,
}
use enterprise_communication.Workflow.Model.{
  WorkflowAction, reply, pending, construct, approve, reject,
}
use enterprise_communication.Workflow.Repository.{get_owned, add, save_owned, require_save_success}
use enterprise_communication.Prelude.{◌==◌, ◌&&◌}

-- `if value is None: raise e`
abbrev pub or_raise : {S A : Type 0} → Error → Option A → Exec S A
or_raise e none = raise e
or_raise e (some a) = pure a

-- `draft_reply.get("body")`
abbrev body_of : List (Text × JsonValue) → Option JsonValue
body_of [] = none
body_of ((key, value) ∷ fields) = if text_eq key (text "body") then some value else body_of fields

unfoldable pub body_text : Option JsonValue → Result Text
body_text (some (string body)) =
    map_error (λ _. analysis_has_no_draft_reply) (require_non_empty_text body)
body_text (some other) = err analysis_has_no_draft_reply
body_text none = err analysis_has_no_draft_reply

unfoldable pub usable_draft_body : Option (List (Text × JsonValue)) → Result Text
unfolding body_text
usable_draft_body none = err analysis_has_no_draft_reply
usable_draft_body (some fields) = body_text (body_of fields)

-- `_execution_target`
unfoldable pub execution_target : Option ℕ → Option Text → Option ℕ × Option Text
execution_target (some account) (some message) = (some account, some message)
execution_target (some account) none = (none, none)
execution_target none message = (none, none)

unfoldable pub get_by_id_for_user : ℕ → ℕ → Exec Db (Option Analysis)
get_by_id_for_user analysis_id user_id =
    query (λ s. select_first (λ row. row.id == analysis_id && row.user_id == user_id) s.analyses)

module _ (now new_id : ℕ) where
  -- `WorkflowAction(...)` with its defaults
  unfoldable pub proposal : ℕ → Analysis → Text → WorkflowAction
  unfolding execution_target
  proposal user_id analysis body =
      let (account, message) = execution_target analysis.connector_account_id analysis.message_id in
      record {
        id = new_id;
        action_type = reply;
        analysis_id = analysis.id;
        owner_user_id = user_id;
        proposed_reply_body = body;
        status = pending;
        created_at = now;
        approved_at = none;
        rejected_at = none;
        executed_at = none;
        failed_at = none;
        approved_reply_body = none;
        connector_account_id = account;
        provider_message_id = message;
      }

  unfoldable pub create : AuthenticatedPrincipal → ℕ → Exec Db WorkflowAction
  unfolding usable_draft_body get_by_id_for_user proposal
  create principal analysis_id = do
    found ← find_existing principal
    user_id ← or_raise analysis_not_found found
    catch hide_persistence (
        with_uow (do
          row ← get_by_id_for_user analysis_id user_id
          analysis ← or_raise analysis_not_found row
          proposed ← lift (usable_draft_body analysis.draft_reply)
          action ← lift (construct (proposal user_id analysis proposed))
          saved ← add action
          commit
          pure saved))

-- `_require_existing_user`
unfoldable pub require_existing_user : AuthenticatedPrincipal → Exec Db ℕ
require_existing_user principal = do
  found ← find_existing principal
  or_raise action_not_found found

unfoldable pub get : AuthenticatedPrincipal → ℕ → Exec Db WorkflowAction
unfolding require_existing_user
get principal action_id = do
  user_id ← require_existing_user principal
  action ← catch hide_persistence (with_uow (get_owned action_id user_id))
  or_raise action_not_found action

-- `_transition_pending`
unfoldable pub transition_pending :
    (WorkflowAction → Result WorkflowAction) → AuthenticatedPrincipal → ℕ → Exec Db WorkflowAction
unfolding require_existing_user
transition_pending apply principal action_id = do
  user_id ← require_existing_user principal
  catch hide_persistence (
      with_uow (do
        row ← get_owned action_id user_id
        action ← or_raise action_not_found row
        moved ← lift (apply action)
        result ← save_owned moved pending
        saved ← lift (require_save_success result)
        commit
        pure saved))

module _ (now : ℕ) where
  unfoldable pub approve_action : AuthenticatedPrincipal → ℕ → Exec Db WorkflowAction
  unfolding transition_pending
  approve_action = transition_pending (approve now)

  unfoldable pub reject_action : AuthenticatedPrincipal → ℕ → Exec Db WorkflowAction
  unfolding transition_pending
  reject_action = transition_pending (reject now)
