-- ===== src/Workflow/Model.antt =====
-- app/domain/models/workflow.py and the statuses of app/domain/enums.py. An identifier is a
-- number, a time is its number of microseconds since the epoch, and a method that assigns to
-- `self` returns the new record.
use enterprise_communication.Prelude.{
  ℕ, Bool, true, false, not, ◌&&◌, Option, none, some, List, [], ◌∷◌, ◌==◌, if◌then◌else◌, any,
  present,
}
use enterprise_communication.Text.{Text, require_non_empty_text}
use enterprise_communication.Errors.{Result, ok, err, invalid_value, invalid_transition, ◌>>=◌}

pub data WorkflowActionType : Type 0 where
  reply : WorkflowActionType

pub data WorkflowActionStatus : Type 0 where
  pending approved rejected executing executed failed : WorkflowActionStatus

abbrev status_index : WorkflowActionStatus → ℕ
status_index pending = 0
status_index approved = 1
status_index rejected = 2
status_index executing = 3
status_index executed = 4
status_index failed = 5

abbrev pub status_eq : WorkflowActionStatus → WorkflowActionStatus → Bool
status_eq a b = status_index a == status_index b

-- `_ALLOWED_TRANSITIONS`
unfoldable pub allowed_transitions : WorkflowActionStatus → List WorkflowActionStatus
allowed_transitions pending = approved ∷ rejected ∷ []
allowed_transitions approved = executing ∷ []
allowed_transitions executing = executed ∷ failed ∷ []
allowed_transitions rejected = []
allowed_transitions executed = []
allowed_transitions failed = []

-- `TERMINAL_WORKFLOW_STATUSES`, as `is_terminal` reads it
unfoldable pub is_terminal : WorkflowActionStatus → Bool
is_terminal s = any (status_eq s) (rejected ∷ executed ∷ failed ∷ [])

pub record WorkflowAction : Type 0 where
  pub id : ℕ
  pub action_type : WorkflowActionType
  pub analysis_id : ℕ
  pub owner_user_id : ℕ
  pub proposed_reply_body : Text
  pub status : WorkflowActionStatus
  pub created_at : ℕ
  pub approved_at : Option ℕ
  pub rejected_at : Option ℕ
  pub executed_at : Option ℕ
  pub failed_at : Option ℕ
  pub approved_reply_body : Option Text
  pub connector_account_id : Option ℕ
  pub provider_message_id : Option Text

-- A validator that passes `None` through
unfoldable pub optional_text : Option Text → Result (Option Text)
optional_text none = ok none
optional_text (some value) = do t ← require_non_empty_text value; ok (some t)

-- The three field validators, each with the normalised text that it returns.
unfoldable pub validate_fields : WorkflowAction → Result WorkflowAction
unfolding optional_text
validate_fields a = do
  proposed ← require_non_empty_text a.proposed_reply_body
  body ← optional_text a.approved_reply_body
  message ← optional_text a.provider_message_id
  ok (record a {
    proposed_reply_body = proposed;
    approved_reply_body = body;
    provider_message_id = message;
  })

-- `_validate_execution_target`
unfoldable pub execution_target_ok : WorkflowAction → Bool
execution_target_ok a =
    let account_present = present a.connector_account_id in
    let message_present = present a.provider_message_id in
    if account_present then message_present else not message_present

-- `_validate_status_invariants` with `_require_present` and `_require_absent`: whether none of
-- them raises, one clause for each `if status is …`
unfoldable pub status_invariants : WorkflowActionStatus → WorkflowAction → Bool
status_invariants pending a =
    not (present a.approved_reply_body)
    && not (present a.approved_at)
    && not (present a.rejected_at)
    && not (present a.executed_at)
    && not (present a.failed_at)
status_invariants approved a =
    present a.approved_reply_body
    && present a.approved_at
    && not (present a.rejected_at)
    && not (present a.executed_at)
    && not (present a.failed_at)
status_invariants rejected a =
    present a.rejected_at
    && not (present a.approved_reply_body)
    && not (present a.approved_at)
    && not (present a.executed_at)
    && not (present a.failed_at)
status_invariants executing a =
    present a.approved_reply_body
    && present a.approved_at
    && not (present a.rejected_at)
    && not (present a.executed_at)
    && not (present a.failed_at)
status_invariants executed a =
    present a.approved_reply_body
    && present a.approved_at
    && present a.executed_at
    && not (present a.rejected_at)
    && not (present a.failed_at)
status_invariants failed a =
    present a.approved_reply_body
    && present a.approved_at
    && present a.failed_at
    && not (present a.rejected_at)
    && not (present a.executed_at)

-- `validate_lifecycle`; its argument says whether the context asks for a rehydration.
unfoldable pub validate_lifecycle : Bool → WorkflowAction → Result WorkflowAction
unfolding execution_target_ok status_invariants
validate_lifecycle rehydrating a =
    if not rehydrating && not (status_eq a.status pending)
    then err invalid_value
    else if not (execution_target_ok a)
    then err invalid_value
    else if not (status_invariants a.status a)
    then err invalid_value
    else ok a

-- `WorkflowAction(...)` and `WorkflowAction.rehydrate(...)`
unfoldable pub construct : WorkflowAction → Result WorkflowAction
unfolding validate_fields validate_lifecycle
construct a = do b ← validate_fields a; validate_lifecycle false b

unfoldable pub rehydrate : WorkflowAction → Result WorkflowAction
unfolding validate_fields validate_lifecycle
rehydrate a = do b ← validate_fields a; validate_lifecycle true b

-- `has_execution_target`
unfoldable pub has_execution_target : WorkflowAction → Bool
has_execution_target a = present a.connector_account_id && present a.provider_message_id

-- `_require_transition`, then `k` goes on
unfoldable pub require_transition :
    WorkflowActionStatus → WorkflowAction → WorkflowAction → Result WorkflowAction
unfolding allowed_transitions
require_transition target a next =
    if any (status_eq target) (allowed_transitions a.status)
    then ok next
    else err invalid_transition

module _ (now : ℕ) (a : WorkflowAction) where
  unfoldable pub approve : Result WorkflowAction
  unfolding require_transition
  approve = require_transition approved a (record a {
    status = approved;
    approved_at = some now;
    approved_reply_body = some a.proposed_reply_body;
  })

  unfoldable pub reject : Result WorkflowAction
  unfolding require_transition
  reject = require_transition rejected a (record a { status = rejected; rejected_at = some now })

  unfoldable pub mark_executed : Result WorkflowAction
  unfolding require_transition
  mark_executed =
      require_transition executed a (record a { status = executed; executed_at = some now })

  unfoldable pub mark_failed : Result WorkflowAction
  unfolding require_transition
  mark_failed = require_transition failed a (record a { status = failed; failed_at = some now })

unfoldable pub mark_executing : WorkflowAction → Result WorkflowAction
unfolding require_transition
mark_executing a = require_transition executing a (record a { status = executing })
