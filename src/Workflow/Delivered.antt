-- ===== src/Workflow/Delivered.antt =====
-- An approved action with a usable account, in a run of `execute` that nothing disturbs.
use mathlib.Core.Path.{subst}
use enterprise_communication.Prelude.{
  ℕ, ◌≡◌, refl, sym, ap, ◌∙◌, Bool, true, Option, some, arith, ==_refl, inl, inr, if◌then◌else◌,
}
use enterprise_communication.Errors.{
  Error, action_not_found, Result, Result-cases, ok, action_not_executable, hide_persistence,
}
use enterprise_communication.Text.{Text, require_non_empty_text}
use enterprise_communication.Storage.Table.{select_first, select_first-holds}
use enterprise_communication.Storage.Db.{Db}
use enterprise_communication.Storage.UnitOfWork.{
  World, Exec, ◌>>=◌, ◌>>◌, pure, rollback, lift, catch, commit, with_uow, query, statement, enter,
  leave,
}
use enterprise_communication.Accounts.Model.{ConnectorAccount, ConnectorAccountRecord, to_record}
use enterprise_communication.Accounts.Repository.{
  get_owned as get_owned_account, is_owned as is_owned_account, record_of,
}
use enterprise_communication.Workflow.Model.{
  WorkflowAction, WorkflowActionStatus, approved, executing, mark_executing, has_execution_target,
  status_eq, optional_text,
}
use enterprise_communication.Workflow.Lifecycle.{perform-IsConsistent, starting}
use enterprise_communication.Workflow.Repository.{
  is_owned, get_owned, save_owned, success, require_save_success,
}
use enterprise_communication.Workflow.Begun.{Unique}
use enterprise_communication.Workflow.Service.{or_raise}
use enterprise_communication.Workflow.Execution.{
  CommunicationActionExecution, connector_account_is_usable, creates_for_account, guard,
  execution_command, start_execution, commit_executing,
}
use enterprise_communication.Workflow.Delivering.{
  IsStored, undisturbed, saved_in, get_owned-undisturbed, save_owned-undisturbed,
  mark_executing_approved,
}

-- One step of a chain that succeeds
pub bind_ok :
    {A B : Type 0} (m : Exec Db A) (f : A → Exec Db B) (a : A) (w w' : World Db)
    (r : Result B × World Db)
    → m w ≡ (ok a, w')
    → f a w' ≡ r
    → (m >>= f) w ≡ r
bind_ok m f a w w' r e k = rw e k

guard_passes : (b : Bool) (e : Error) (w : World Db) → b ≡ true → guard b e w ≡ (ok tt, w)
guard_passes b e w h = rw h refl

pub or_raise_passes :
    {A : Type 0} (e : Error) (o : Option A) (a : A) (w : World Db)
    → o ≡ some a
    → or_raise e o w ≡ (ok a, w)
or_raise_passes e o a w h = rw h refl

strip_some : (t : Text) → optional_text (some t) ≡ ok (some t) → require_non_empty_text t ≡ ok t
unfolding optional_text
strip_some t h = elim (Result-cases (require_non_empty_text t)) [
  | inl (u, e) ↦ e ∙ ground arith
  | inr (c, e) ↦ absurd (ground arith)
]

record_of_ok :
    (row : ConnectorAccount) (account : ConnectorAccountRecord)
    → to_record row ≡ ok account
    → record_of (some row) ≡ ok (some account)
record_of_ok row account h = rw (h, record_of) refl

pub session_undisturbed :
    {A : Type 0} (body : Exec Db A) (a : A) (s p q d : Db)
    → body (undisturbed s s) ≡ (ok a, undisturbed p q)
    → catch hide_persistence (with_uow body) (undisturbed d s) ≡ (ok a, undisturbed q q)
unfolding with_uow enter leave rollback
session_undisturbed body a s p q d e = rw e refl

-- What `execute` needs of the action `a` and of its mailbox account
pub record IsReady (resolves : Text → Text → Bool) (s : Db) (k u : ℕ) (a : WorkflowAction)
    (row : ConnectorAccount) (account : ConnectorAccountRecord) (account_id : ℕ)
    (body message : Text) : Type 0 where
  pub found : select_first (is_owned k u) s.actions ≡ some a
  pub one : Unique k s
  pub stored : IsStored a
  pub approval : a.status ≡ approved
  pub targets_account : a.connector_account_id ≡ some account_id
  pub targets_message : a.provider_message_id ≡ some message
  pub reply : a.approved_reply_body ≡ some body
  pub mailbox : select_first (is_owned_account account_id u) s.accounts ≡ some row
  pub readable : to_record row ≡ ok account
  pub usable : connector_account_is_usable (some account) ≡ true
  pub routed : creates_for_account resolves account ≡ true
  pub slug : require_non_empty_text account.provider ≡ ok account.provider

abbrev pub command_of :
    WorkflowAction → ConnectorAccountRecord → ℕ → Text → Text → CommunicationActionExecution
command_of a account account_id body message = record {
  action_id = a.id;
  action_type = a.action_type;
  approved_reply_body = body;
  connector_account_id = account_id;
  provider_message_id = message;
  provider = account.provider;
}

module _ (resolves : Text → Text → Bool) (s : Db) (k u : ℕ) (a : WorkflowAction)
    (row : ConnectorAccount) (account : ConnectorAccountRecord) (account_id : ℕ)
    (body message : Text)
    (ready : IsReady resolves s k u a row account account_id body message) where
  abbrev pub moved : WorkflowAction
  moved = record a { status = executing }

  abbrev pub started : Db
  started = saved_in moved approved s

  abbrev pub command : CommunicationActionExecution
  command = command_of a account account_id body message

  targeted : has_execution_target a ≡ true
  unfolding has_execution_target
  targeted = rw (ready.targets_account, ready.targets_message) refl

  stripped_body : require_non_empty_text body ≡ ok body
  stripped_body =
      strip_some body (subst (λ o. optional_text o ≡ ok o) ready.reply ready.stored.body)

  stripped_message : require_non_empty_text message ≡ ok message
  stripped_message =
      strip_some message
        (subst (λ o. optional_text o ≡ ok o) ready.targets_message ready.stored.message)

  account_read :
      (d : Db)
      → get_owned_account account_id u (undisturbed s d) ≡ (ok (some account), undisturbed s d)
  unfolding get_owned_account query statement
  account_read d =
      ap (λ o. (record_of o, undisturbed s d)) ready.mailbox
      ∙ ap (λ r. (r, undisturbed s d)) (record_of_ok row account ready.readable)

  command_made : (w : World Db) → execution_command moved account.provider w ≡ (ok command, w)
  unfolding execution_command
  command_made w =
      rw
        (
          ready.reply, ready.targets_account, ready.targets_message, stripped_body,
          stripped_message, ready.slug,
        )
        refl

  pub same : (a.id ≡ k) × (a.owner_user_id ≡ u)
  same = let h = select_first-holds (is_owned k u) s.actions a ready.found in ground arith

  pub own_found : select_first (is_owned a.id a.owner_user_id) s.actions ≡ some a
  own_found =
      subst (λ i. select_first (is_owned i a.owner_user_id) s.actions ≡ some a) (sym same.0)
        (subst (λ o. select_first (is_owned k o) s.actions ≡ some a) (sym same.1) ready.found)

  pub own : is_owned a.id a.owner_user_id a ≡ true
  own = rw (==_refl a.id, ==_refl a.owner_user_id) refl

  pub own_one : Unique a.id s
  own_one = subst (λ i. Unique i s) (sym same.0) ready.one

  pub moved-IsStored : IsStored moved
  moved-IsStored = record {
    proposed = ready.stored.proposed;
    body = ready.stored.body;
    message = ready.stored.message;
    consistent =
        perform-IsConsistent starting 0 a moved ready.stored.consistent
          (mark_executing_approved a ready.approval);
  }

  saved : save_owned moved approved (undisturbed s s) ≡ (ok (success moved), undisturbed started s)
  saved =
      save_owned-undisturbed a moved approved s s own_found
        (ap (λ (t : WorkflowActionStatus). status_eq t approved) ready.approval) own refl
        moved-IsStored own_one

  abbrev then_command : WorkflowAction → Exec Db CommunicationActionExecution
  then_command saved = do command ← execution_command saved account.provider; commit; pure command

  start_undisturbed :
      start_execution resolves u a (undisturbed s s) ≡ (ok command, undisturbed started started)
  unfolding start_execution require_save_success commit
  start_undisturbed =
      let w = undisturbed s s in
      let w' = undisturbed started s in
      bind_ok (lift (if status_eq a.status approved then ok a else mark_executing a)) _ a w w _
        (ap
          (λ (t : WorkflowActionStatus).
            ((if status_eq t approved then ok a else mark_executing a), w))
          ready.approval)
        (bind_ok (guard (has_execution_target a) action_not_executable) _ tt w w _
          (guard_passes _ _ w targeted)
          (bind_ok (or_raise action_not_executable a.connector_account_id) _ account_id w w _
            (or_raise_passes _ _ account_id w ready.targets_account)
            (bind_ok (get_owned_account account_id u) _ (some account) w w _ (account_read s) (
              bind_ok (guard (connector_account_is_usable (some account)) action_not_executable) _
                tt w w _ (guard_passes _ _ w ready.usable)
                (bind_ok (guard (creates_for_account resolves account) action_not_executable) _ tt w
                  w _ (guard_passes _ _ w ready.routed)
                  (bind_ok (lift (mark_executing a)) _ moved w w _
                    (ap (λ (r : Result WorkflowAction). (r, w))
                      (mark_executing_approved a ready.approval))
                    (bind_ok (save_owned moved approved) _ (success moved) w w' _ saved (
                      bind_ok (lift (require_save_success (success moved))) then_command moved w' w'
                        _ refl
                        (bind_ok (execution_command moved account.provider) (λ c. commit >> pure c)
                          command w' w' _ (command_made w') refl)))))))))

  abbrev then_start : Option WorkflowAction → Exec Db CommunicationActionExecution
  then_start found = do loaded ← or_raise action_not_found found; start_execution resolves u loaded

  -- When no call of the database fails and no other session writes, _commit_executing on a stored,
  -- approved action with a usable and routed account, whose id is unique, commits the executing
  -- status and returns the command with the approved body.
  pub commit_executing-undisturbed :
      (d : Db)
      → commit_executing resolves u k (undisturbed d s) ≡ (ok command, undisturbed started started)
  unfolding commit_executing
  commit_executing-undisturbed d = session_undisturbed _ command s started started d (
      bind_ok (get_owned k u) then_start (some a) (undisturbed s s) (undisturbed s s) _
        (get_owned-undisturbed k u a s s ready.found ready.stored) start_undisturbed)
