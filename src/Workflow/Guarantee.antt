-- ===== src/Workflow/Guarantee.antt =====
-- The writing methods of app/application/services/workflow_actions.py and
-- app/application/services/workflow_action_execution.py as sequences of updates of single rows.
use enterprise_communication.Prelude.{ℕ, ◌≡◌, Bool, true, false, Option, none, some, arith}
use enterprise_communication.Errors.{Error, Result, ok}
use enterprise_communication.Text.{Text}
use enterprise_communication.Identity.Model.{AuthenticatedPrincipal}
use enterprise_communication.Identity.Resolver.{find_existing, get_user_id_by_external_identity}
use enterprise_communication.Accounts.Model.{ConnectorAccount}
use enterprise_communication.Accounts.Repository.{
  update_accounts, mark_reauth_required_owned, get_owned as get_owned_account,
}
use enterprise_communication.Storage.Db.{Db}
use enterprise_communication.Storage.Keeps.{
  Stable, Keeps, Keeps-bind, Keeps-bind-lift, Keeps-pure, Keeps-raise, Keeps-catch, Keeps-if,
  keeps_rules,
}
use enterprise_communication.Workflow.Model.{
  WorkflowAction, WorkflowActionStatus, pending, approved, executing, mark_executed, mark_failed,
}
use enterprise_communication.Workflow.Lifecycle.{perform_target, finishing, failing}
use enterprise_communication.Workflow.Repository.{
  written, unwritten, get_owned, insert_action, add, update_lifecycle, save_owned,
}
use enterprise_communication.Workflow.Service.{
  or_raise, create, transition_pending, require_existing_user, get_by_id_for_user,
}
use enterprise_communication.Workflow.Execution.{
  CommunicationActionExecution, ExecutorOutcome, execution_command, start_execution,
  commit_executing, finish_execution, commit_terminal, record_outcome, prepare, guard, delivered,
  reauthorization_required, execution_failed, escaped,
}
use enterprise_communication.Workflow.Begun.{IsHonest, is_begun}

module _ (P : Db → Type 0) (stable : Stable IsHonest P)
    (inserts : (a : WorkflowAction) → Keeps IsHonest P (insert_action a))
    (updates : (a : WorkflowAction) (e : WorkflowActionStatus)
      → (is_begun e ≡ true → is_begun a.status ≡ true)
      → Keeps IsHonest P (update_lifecycle a e))
    (accounts : (p : ConnectorAccount → Bool) (f : ConnectorAccount → ConnectorAccount)
      → Keeps IsHonest P (update_accounts p f)) where
  pub or_raise-Keeps : {A : Type 0} (e : Error) (o : Option A) → Keeps IsHonest P (or_raise e o)
  or_raise-Keeps e none = Keeps-raise e
  or_raise-Keeps e (some a) = Keeps-pure a

  get_user-Keeps :
      (issuer subject : Text) → Keeps IsHonest P (get_user_id_by_external_identity issuer subject)
  unfolding get_user_id_by_external_identity
  get_user-Keeps issuer subject = search keeps_rules

  find_existing-Keeps : (p : AuthenticatedPrincipal) → Keeps IsHonest P (find_existing p)
  unfolding find_existing
  find_existing-Keeps p = search (keeps_rules, get_user-Keeps)

  pub require_existing_user-Keeps :
      (p : AuthenticatedPrincipal) → Keeps IsHonest P (require_existing_user p)
  unfolding require_existing_user
  require_existing_user-Keeps p = search (keeps_rules, find_existing-Keeps, or_raise-Keeps)

  pub get_owned-Keeps : (id user_id : ℕ) → Keeps IsHonest P (get_owned id user_id)
  unfolding get_owned
  get_owned-Keeps id user_id = search keeps_rules

  pub get_owned_account-Keeps : (id user_id : ℕ) → Keeps IsHonest P (get_owned_account id user_id)
  unfolding get_owned_account
  get_owned_account-Keeps id user_id = search keeps_rules

  add-Keeps : (a : WorkflowAction) → Keeps IsHonest P (add a)
  unfolding add
  add-Keeps a = search (keeps_rules, inserts)

  get_by_id_for_user-Keeps : (id user_id : ℕ) → Keeps IsHonest P (get_by_id_for_user id user_id)
  unfolding get_by_id_for_user
  get_by_id_for_user-Keeps id user_id = search keeps_rules

  save_owned-Keeps :
      (a : WorkflowAction) (e : WorkflowActionStatus)
      → (is_begun e ≡ true → is_begun a.status ≡ true)
      → Keeps IsHonest P (save_owned a e)
  unfolding save_owned
  save_owned-Keeps a e forward = Keeps-bind _ _ (Keeps-catch _ _ (updates a e forward)) (λ rowcount.
      Keeps-bind _ _ (get_owned-Keeps a.id a.owner_user_id)
        (λ row. Keeps-if _ _ _ (written_keeps row) (unwritten_keeps row)))
    where
      written_keeps : (row : Option WorkflowAction) → Keeps IsHonest P (written row)
      written_keeps none = Keeps-raise _
      written_keeps (some loaded) = Keeps-pure _

      unwritten_keeps : (row : Option WorkflowAction) → Keeps IsHonest P (unwritten row)
      unwritten_keeps none = Keeps-pure _
      unwritten_keeps (some loaded) = Keeps-pure _

  pub create-Keeps :
      (now new_id : ℕ) (p : AuthenticatedPrincipal) (analysis_id : ℕ)
      → Keeps IsHonest P (create now new_id p analysis_id)
  unfolding create
  create-Keeps now new_id p analysis_id =
      search (keeps_rules, find_existing-Keeps, or_raise-Keeps, get_by_id_for_user-Keeps, add-Keeps)
        depth 20

  pub transition_pending-Keeps :
      (apply : WorkflowAction → Result WorkflowAction) (p : AuthenticatedPrincipal) (id : ℕ)
      → Keeps IsHonest P (transition_pending apply p id)
  unfolding transition_pending
  transition_pending-Keeps apply p id =
      search
        (keeps_rules, require_existing_user-Keeps, or_raise-Keeps, get_owned-Keeps, pending_saves)
        depth 20
    where
      pending_saves : (a : WorkflowAction) → Keeps IsHonest P (save_owned a pending)
      pending_saves a = save_owned-Keeps a pending (λ h. absurd (cc))

  pub guard-Keeps : (b : Bool) (e : Error) → Keeps IsHonest P (guard b e)
  guard-Keeps true e = Keeps-pure tt
  guard-Keeps false e = Keeps-raise e

  execution_command-Keeps :
      (a : WorkflowAction) (provider : Text) → Keeps IsHonest P (execution_command a provider)
  unfolding execution_command
  execution_command-Keeps a provider = search keeps_rules depth 20

  start_execution-Keeps :
      (resolves : Text → Text → Bool) (user_id : ℕ) (a : WorkflowAction)
      → Keeps IsHonest P (start_execution resolves user_id a)
  unfolding start_execution
  start_execution-Keeps resolves user_id a =
      search
        (
          keeps_rules, or_raise-Keeps, guard-Keeps, get_owned_account-Keeps, approved_saves,
          execution_command-Keeps,
        )
        depth 30
    where
      approved_saves : (b : WorkflowAction) → Keeps IsHonest P (save_owned b approved)
      approved_saves b = save_owned-Keeps b approved (λ h. absurd (cc))

  commit_executing-Keeps :
      (resolves : Text → Text → Bool) (user_id id : ℕ)
      → Keeps IsHonest P (commit_executing resolves user_id id)
  unfolding commit_executing
  commit_executing-Keeps resolves user_id id =
      search (keeps_rules, or_raise-Keeps, get_owned-Keeps, start_execution-Keeps) depth 12

  pub prepare-Keeps :
      (resolves : Text → Text → Bool) (executor : CommunicationActionExecution → ExecutorOutcome)
      (now id : ℕ) (p : AuthenticatedPrincipal)
      → Keeps IsHonest P (prepare resolves executor now id p)
  unfolding prepare
  prepare-Keeps resolves executor now id p =
      search (keeps_rules, require_existing_user-Keeps, commit_executing-Keeps) depth 12

  -- A call that leads to a status that has begun may be saved over any expected status.
  finish_execution-Keeps :
      (apply : WorkflowAction → Result WorkflowAction)
      → ((a b : WorkflowAction) → apply a ≡ ok b → is_begun b.status ≡ true)
      → (user_id id : ℕ) → Keeps IsHonest P (finish_execution apply user_id id)
  unfolding finish_execution
  finish_execution-Keeps apply forward user_id id =
      Keeps-bind _ _ (get_owned-Keeps id user_id) (λ row.
        Keeps-bind _ _ (or_raise-Keeps _ row) (λ a. Keeps-bind-lift (apply a) _ (λ b applied.
          Keeps-bind _ _ (save_owned-Keeps b executing (λ _. forward a b applied))
            (λ result. search (keeps_rules) depth 12))))

  executed_forward :
      (now : ℕ) (a b : WorkflowAction) → mark_executed now a ≡ ok b → is_begun b.status ≡ true
  executed_forward now a b h = ground (arith, (perform_target finishing now a b h).0)

  failed_forward :
      (now : ℕ) (a b : WorkflowAction) → mark_failed now a ≡ ok b → is_begun b.status ≡ true
  failed_forward now a b h = ground (arith, (perform_target failing now a b h).0)

  mark_reauth_required-Keeps :
      (now id user_id : ℕ) → Keeps IsHonest P (mark_reauth_required_owned now id user_id)
  unfolding mark_reauth_required_owned
  mark_reauth_required-Keeps now id user_id =
      Keeps-bind _ _ (accounts _ _)
        (λ n. Keeps-if _ _ _ (get_owned_account-Keeps id user_id) (Keeps-pure none))

  commit_terminal-Keeps :
      (now : ℕ) (succeeded : Bool) (user_id id : ℕ)
      → Keeps IsHonest P (commit_terminal now succeeded user_id id)
  unfolding commit_terminal
  commit_terminal-Keeps now true user_id id =
      search (keeps_rules, finish_execution-Keeps, executed_forward)
  commit_terminal-Keeps now false user_id id =
      search (keeps_rules, finish_execution-Keeps, failed_forward)

  pub record_outcome-Keeps :
      (now : ℕ) (o : ExecutorOutcome) (user_id : ℕ) (c : CommunicationActionExecution) (id : ℕ)
      → Keeps IsHonest P (record_outcome now o user_id c id)
  unfolding record_outcome
  record_outcome-Keeps now delivered user_id c id = commit_terminal-Keeps now true user_id id
  record_outcome-Keeps now reauthorization_required user_id c id =
      search (keeps_rules, mark_reauth_required-Keeps, finish_execution-Keeps, failed_forward) depth
        12
  record_outcome-Keeps now execution_failed user_id c id =
      commit_terminal-Keeps now false user_id id
  record_outcome-Keeps now escaped user_id c id = Keeps-raise _
