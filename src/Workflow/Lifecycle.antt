-- ===== src/Workflow/Lifecycle.antt =====
-- The validators and the transitions of app/domain/models/workflow.py against a table of statuses.
use enterprise_communication.Prelude.{ℕ, ◌≡◌, ◌↔◌, Bool, true, false, arith, present}
use enterprise_communication.Errors.{Result, ok, err, invalid_transition}
use enterprise_communication.Workflow.Model.{
  WorkflowActionStatus, pending, approved, rejected, executing, executed, failed, WorkflowAction,
  status_eq, validate_lifecycle, approve, reject, mark_executing, mark_executed, mark_failed,
}

-- The lifecycle as a table: which of the dependent fields a status comes with.
abbrev pub was_approved : WorkflowActionStatus → Bool
was_approved pending = false
was_approved rejected = false
was_approved _ = true

pub record IsConsistent (a : WorkflowAction) : Type 0 where
  pub body : present a.approved_reply_body ≡ was_approved a.status
  pub approval : present a.approved_at ≡ was_approved a.status
  pub rejection : present a.rejected_at ≡ status_eq a.status rejected
  pub execution : present a.executed_at ≡ status_eq a.status executed
  pub failure : present a.failed_at ≡ status_eq a.status failed
  pub target : present a.connector_account_id ≡ present a.provider_message_id

-- The model validator accepts a rehydrated action exactly when its dependent fields fit its status
-- by a table, and returns it unchanged.
pub validate_lifecycle_exact :
    (a : WorkflowAction) → (validate_lifecycle true a ≡ ok a) ↔ IsConsistent a
unfolding validate_lifecycle
validate_lifecycle_exact a = (λ h. ground arith, λ h. ground arith)

-- The calls that move an action, each with the status that it starts from and the one it leads to.
pub data Call : Type 0 where
  approving rejecting starting finishing failing : Call

abbrev pub perform : Call → ℕ → WorkflowAction → Result WorkflowAction
perform approving now a = approve now a
perform rejecting now a = reject now a
perform starting now a = mark_executing a
perform finishing now a = mark_executed now a
perform failing now a = mark_failed now a

abbrev pub source : Call → WorkflowActionStatus
source approving = pending
source rejecting = pending
source starting = approved
source finishing = executing
source failing = executing

abbrev pub target : Call → WorkflowActionStatus
target approving = approved
target rejecting = rejected
target starting = executing
target finishing = executed
target failing = failed

-- What no call changes.
pub record SameOrigin (a b : WorkflowAction) : Type 0 where
  pub id : a.id ≡ b.id
  pub owner_user_id : a.owner_user_id ≡ b.owner_user_id
  pub analysis_id : a.analysis_id ≡ b.analysis_id
  pub proposed_reply_body : a.proposed_reply_body ≡ b.proposed_reply_body
  pub created_at : a.created_at ≡ b.created_at
  pub connector_account_id : a.connector_account_id ≡ b.connector_account_id
  pub provider_message_id : a.provider_message_id ≡ b.provider_message_id

-- A lifecycle call succeeds from its source status only.
pub perform-source :
    (c : Call) (now : ℕ) (a b : WorkflowAction) → perform c now a ≡ ok b → a.status ≡ source c
unfolding approve reject mark_executing mark_executed mark_failed
perform-source approving now a b h = ground arith
perform-source rejecting now a b h = ground arith
perform-source starting now a b h = ground arith
perform-source finishing now a b h = ground arith
perform-source failing now a b h = ground arith

-- From any other status than its source a lifecycle call raises the transition error.
pub perform_refused :
    (c : Call) (now : ℕ) (a : WorkflowAction)
    → status_eq a.status (source c) ≡ false
    → perform c now a ≡ err invalid_transition
unfolding approve reject mark_executing mark_executed mark_failed
perform_refused approving now a h = ground arith
perform_refused rejecting now a h = ground arith
perform_refused starting now a h = ground arith
perform_refused finishing now a h = ground arith
perform_refused failing now a h = ground arith

-- A lifecycle call that succeeds leads to its target status and keeps id, owner, analysis,
-- proposed body, creation time and execution target.
pub perform_target :
    (c : Call) (now : ℕ) (a b : WorkflowAction)
    → perform c now a ≡ ok b
    → (b.status ≡ target c) × SameOrigin a b
unfolding approve reject mark_executing mark_executed mark_failed
perform_target approving now a b h = ground arith
perform_target rejecting now a b h = ground arith
perform_target starting now a b h = ground arith
perform_target finishing now a b h = ground arith
perform_target failing now a b h = ground arith

-- A lifecycle call that succeeds on an action whose dependent fields fit its status gives one
-- whose fields fit the new status.
pub perform-IsConsistent :
    (c : Call) (now : ℕ) (a b : WorkflowAction)
    → IsConsistent a
    → perform c now a ≡ ok b
    → IsConsistent b
unfolding approve reject mark_executing mark_executed mark_failed
perform-IsConsistent approving now a b k h = ground arith
perform-IsConsistent rejecting now a b k h = ground arith
perform-IsConsistent starting now a b k h = ground arith
perform-IsConsistent finishing now a b k h = ground arith
perform-IsConsistent failing now a b k h = ground arith
