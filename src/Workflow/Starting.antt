-- ===== src/Workflow/Starting.antt =====
-- `_commit_executing` of app/application/services/workflow_action_execution.py, on an action that
-- may start: what holds where it returns.
use mathlib.Core.Path.{subst}
use enterprise_communication.Prelude.{
  ℕ, ◌≡◌, refl, sym, ◌∙◌, Bool, true, Option, none, some, arith, Bool-cases, inl, inr,
  if◌then◌else◌,
}
use enterprise_communication.Errors.{Error, action_not_found, action_not_executable, ok}
use enterprise_communication.Text.{Text}
use enterprise_communication.Storage.Db.{Db}
use enterprise_communication.Storage.Keeps.{Safe, Keeps, rely-next, rely-later, Keeps-statement}
use enterprise_communication.Storage.Yields.{
  Yields, Yields-pure, Yields-raise, Yields-catch, Yields-bind, Yields-bind-lift, Yields-keep,
  Yields-with_uow, Yields-commit,
}
use enterprise_communication.Storage.UnitOfWork.{World, lift, commit, pure, ◌>>=◌, ◌>>◌}
use enterprise_communication.Workflow.Model.{
  WorkflowAction, approved, mark_executing, status_eq, has_execution_target,
}
use enterprise_communication.Workflow.Lifecycle.{perform_target, starting}
use enterprise_communication.Workflow.Repository.{
  WorkflowActionSaveResult, success, get_owned, save_owned, require_save_success,
}
use enterprise_communication.Workflow.Begun.{
  Unique, Begun, IsHonest, Unique-stable, Begun-stable, update_lifecycle-Unique,
  insert_action-Unique, is_begun,
}
use enterprise_communication.Workflow.Service.{or_raise}
use enterprise_communication.Workflow.Sending.{Loaded, Saved, get_owned-Sees, save_owned-Sees}
use enterprise_communication.Workflow.Guarantee
use enterprise_communication.Workflow.Execution.{
  CommunicationActionExecution, execution_command, start_execution, guard, commit_executing,
  connector_account_is_usable, creates_for_account,
}
use enterprise_communication.Accounts.Repository.{update_accounts, get_owned as get_owned_account}
use enterprise_communication.Accounts.Model.{ConnectorAccount, ConnectorAccountRecord}

pub update_accounts-Unique :
    (id : ℕ) (p : ConnectorAccount → Bool) (f : ConnectorAccount → ConnectorAccount)
    → Keeps IsHonest (Unique id) (update_accounts p f)
unfolding update_accounts
update_accounts-Unique id p f = Keeps-statement (Unique-stable id) _ (λ s h. h)

pub update_accounts-Begun :
    (id : ℕ) (p : ConnectorAccount → Bool) (f : ConnectorAccount → ConnectorAccount)
    → Keeps IsHonest (Begun id) (update_accounts p f)
unfolding update_accounts
update_accounts-Begun id p f = Keeps-statement (Begun-stable id) _ (λ s h. h)

execution_command_world :
    (b : WorkflowAction) (provider : Text) (w : World Db) → (execution_command b provider w).1 ≡ w
unfolding execution_command
execution_command_world b provider w = ground arith

execution_command_id :
    (b : WorkflowAction) (provider : Text) (w : World Db) (c : CommunicationActionExecution)
    → (execution_command b provider w).0 ≡ ok c
    → c.action_id ≡ b.id
unfolding execution_command
execution_command_id b provider w c e = ground arith

require_save_success-ok :
    (r : WorkflowActionSaveResult) (b : WorkflowAction)
    → require_save_success r ≡ ok b
    → r ≡ success b
unfolding require_save_success
require_save_success-ok r b e = ground arith

mark_executing-id : (a b : WorkflowAction) → mark_executing a ≡ ok b → b.id ≡ a.id
mark_executing-id a b e = sym (perform_target starting 0 a b e).1.id

mark_executing-begun : (a b : WorkflowAction) → mark_executing a ≡ ok b → is_begun b.status ≡ true
mark_executing-begun a b e = ground (arith, (perform_target starting 0 a b e).0)

normalized-id :
    (a b : WorkflowAction)
    → (if status_eq a.status approved then ok a else mark_executing a) ≡ ok b
    → b.id ≡ a.id
normalized-id a b e = elim (Bool-cases (status_eq a.status approved)) [
  | inl same ↦ ground arith
  | inr other ↦ ground (arith, mark_executing-id a b)
]

module _ (id : ℕ) where
  -- What is committed when a command goes out.
  abbrev pub Started : CommunicationActionExecution → World Db → Type 0
  Started c w = Safe IsHonest (Begun id) w × (c.action_id ≡ id)

  abbrev Settled : CommunicationActionExecution → World Db → Type 0
  Settled c w = Started c (record w { pending = w.durable })

  -- What is known of a begun execution before the commit.
  abbrev Starting : ℕ → World Db → Type 0
  Starting k w = Safe IsHonest (Unique id) w × Begun id w.pending × (k ≡ id)

  -- The command is built from values alone.
  execution_command_started :
      (b : WorkflowAction) (provider : Text)
      → Yields (Starting b.id) (execution_command b provider) (λ c w. Starting c.action_id w)
  execution_command_started b provider = record {
    at = λ w h c e.
        subst (λ x. Starting c.action_id x) (sym (execution_command_world b provider w))
          (h.0, h.1, execution_command_id b provider w c e ∙ h.2);
  }

  commit_started :
      (c : CommunicationActionExecution) → Yields (Starting c.action_id) (commit >> pure c) Settled
  commit_started c =
      Yields-bind (λ _. Settled c) _ _
        (Yields-commit (λ w h.
          let begun = rely-next IsHonest (Begun-stable id) w.turns h.0.rely w.pending h.1 in
          (
            record {
              pending = begun;
              durable = begun;
              rely = rely-later IsHonest w.turns h.0.rely;
            },
            h.2,
          )))
        (λ _. Yields-pure c (λ w h. h))

  result-Started :
      (r : WorkflowActionSaveResult) (moved : WorkflowAction) (provider : Text)
      (same : moved.id ≡ id) (going : is_begun moved.status ≡ true)
      → Yields
          (Saved id moved same going r)
          (do
            saved ← lift (require_save_success r)
            command ← execution_command saved provider
            commit
            pure command)
          Settled
  result-Started r moved provider same going =
      Yields-bind (λ (b : WorkflowAction) w. Starting b.id w) (lift (require_save_success r)) _
        (record {
          at = λ w h b e. let k = h.1 b (require_save_success-ok r b e) in (h.0, k.0, k.1);
        })
        (λ b.
          Yields-bind (λ (c : CommunicationActionExecution) w. Starting c.action_id w) _ _
            (execution_command_started b provider) commit_started)

  guard-Unique : (b : Bool) (e : Error) → Keeps IsHonest (Unique id) (guard b e)
  guard-Unique =
      Guarantee.guard-Keeps (Unique id) (Unique-stable id) (insert_action-Unique id)
        (λ a e _. update_lifecycle-Unique id a e) (update_accounts-Unique id)

  or_raise-Unique :
      {A : Type 0} (e : Error) (o : Option A) → Keeps IsHonest (Unique id) (or_raise e o)
  or_raise-Unique =
      Guarantee.or_raise-Keeps (Unique id) (Unique-stable id) (insert_action-Unique id)
        (λ a e _. update_lifecycle-Unique id a e) (update_accounts-Unique id)

  account-Unique : (k u : ℕ) → Keeps IsHonest (Unique id) (get_owned_account k u)
  account-Unique =
      Guarantee.get_owned_account-Keeps (Unique id) (Unique-stable id) (insert_action-Unique id)
        (λ a e _. update_lifecycle-Unique id a e) (update_accounts-Unique id)

  moved_started :
      (moved : WorkflowAction) (provider : Text)
      → moved.id ≡ id
      → is_begun moved.status ≡ true
      → Yields
          (Safe IsHonest (Unique id))
          (do
            result ← save_owned moved approved
            saved ← lift (require_save_success result)
            command ← execution_command saved provider
            commit
            pure command)
          Settled
  moved_started moved provider same going =
      Yields-bind (Saved id moved same going) (save_owned moved approved) _
        (record {
          at = λ w h.
              (save_owned-Sees id moved same going).at w
                (record { safe = h; begins = λ c. absurd c });
        })
        (λ r. result-Started r moved provider same going)

  start_execution_started :
      (resolves : Text → Text → Bool) (user_id : ℕ) (a : WorkflowAction)
      → a.id ≡ id
      → Yields (Safe IsHonest (Unique id)) (start_execution resolves user_id a) Settled
  unfolding start_execution
  start_execution_started resolves user_id a same =
      Yields-bind-lift (if status_eq a.status approved then ok a else mark_executing a) _
        (λ action e1.
          Yields-keep _ _ (guard-Unique (has_execution_target action) action_not_executable) (λ _.
            Yields-keep _ _ (or_raise-Unique action_not_executable action.connector_account_id)
              (λ account_id. Yields-keep _ _ (account-Unique account_id user_id) (λ found.
                Yields-keep _ _
                  (guard-Unique (connector_account_is_usable found) action_not_executable)
                  (λ _.
                    Yields-keep _ _ (or_raise-Unique action_not_executable found)
                      (λ (account : ConnectorAccountRecord).
                        Yields-keep _ _
                          (guard-Unique (creates_for_account resolves account)
                            action_not_executable)
                          (λ _. Yields-bind-lift (mark_executing action) _ (λ moved e2.
                            moved_started moved account.provider
                              (mark_executing-id action moved e2 ∙ normalized-id a action e1 ∙ same)
                              (mark_executing-begun action moved e2)))))))))

  Loaded-Yields :
      (o : Option WorkflowAction)
      → Yields
          (Loaded id ⊥ id o)
          (or_raise action_not_found o)
          (λ a w. Safe IsHonest (Unique id) w × (a.id ≡ id))
  Loaded-Yields none = Yields-raise action_not_found
  Loaded-Yields (some a) = Yields-pure a (λ w h. (h.0.safe, h.1 a refl))

  -- When _commit_executing returns a command, the command is for the requested action, and the
  -- committed state and the view of the session both hold the execution as begun.
  pub commit_executing-Started :
      (resolves : Text → Text → Bool) (user_id : ℕ)
      → Yields (Safe IsHonest (Unique id)) (commit_executing resolves user_id id) Started
  unfolding commit_executing
  commit_executing-Started resolves user_id = Yields-catch _ _ (
      Yields-with_uow Started _ (Unique-stable id) (
        Yields-bind (Loaded id ⊥ id) (get_owned id user_id) _
          (record {
            at = λ w h.
                (get_owned-Sees id ⊥ id user_id).at w (record { safe = h; begins = λ c. absurd c });
          })
          (λ row.
            Yields-bind (λ a w. Safe IsHonest (Unique id) w × (a.id ≡ id))
              (or_raise action_not_found row) _ (Loaded-Yields row)
              (λ a. record {
                at = λ w h. (start_execution_started resolves user_id a h.1).at w h.0;
              }))))
