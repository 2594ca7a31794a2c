-- ===== src/Workflow/Completed.antt =====
-- The whole of `execute`, in a run that nothing disturbs, on an action that is ready for it.
use mathlib.Core.Path.{subst}
use enterprise_communication.Prelude.{
  ℕ, ◌≤◌, ◌≡◌, refl, sym, ap, ◌∙◌, Bool, true, Option, some, [], ◌∷◌,
}
use enterprise_communication.Errors.{action_not_found, Result, ok}
use enterprise_communication.Text.{Text}
use enterprise_communication.Identity.Model.{AuthenticatedPrincipal}
use enterprise_communication.Identity.Resolver.{
  is_identity, user_id_of, get_user_id_by_external_identity, lookup_identity, find_existing,
}
use enterprise_communication.Storage.Table.{select_first, count_where-update_where}
use enterprise_communication.Storage.Db.{Db}
use enterprise_communication.Storage.UnitOfWork.{
  World, Exec, ◌>>=◌, ◌>>◌, pure, lift, commit, query, statement,
}
use enterprise_communication.Accounts.Model.{ConnectorAccount, ConnectorAccountRecord}
use enterprise_communication.Workflow.Model.{
  WorkflowAction, WorkflowActionStatus, status_eq, approved, executing, executed, mark_executed,
}
use enterprise_communication.Workflow.Lifecycle.{perform-IsConsistent, finishing}
use enterprise_communication.Workflow.Repository.{
  is_owned, is_expected, lifecycle_values, get_owned, save_owned, success, require_save_success,
}
use enterprise_communication.Workflow.Begun.{has_id, Unique}
use enterprise_communication.Workflow.Service.{or_raise, require_existing_user}
use enterprise_communication.Workflow.Execution.{
  CommunicationActionExecution, ExecutorOutcome, delivered, Run, commit_executing, finish_execution,
  commit_terminal, record_outcome, prepare, deliver, execute,
}
use enterprise_communication.Workflow.Delivering.{
  IsStored, undisturbed, saved_in, get_owned-undisturbed, save_owned-undisturbed, found_again,
  mark_executed_executing,
}
use enterprise_communication.Workflow.Delivered.{
  IsReady, command_of, bind_ok, session_undisturbed, moved, started, command, same, own_found, own,
  own_one, moved-IsStored, commit_executing-undisturbed,
}

-- The principal is known as the user `u`.
abbrev pub Knows : Db → AuthenticatedPrincipal → ℕ → Type 0
Knows s p u = user_id_of (select_first (is_identity p.issuer p.subject) s.identities) ≡ some u

looked_up :
    (s : Db) (p : AuthenticatedPrincipal) (u : ℕ)
    → Knows s p u
    → get_user_id_by_external_identity p.issuer p.subject (undisturbed s s)
      ≡ (ok (some u), undisturbed s s)
unfolding get_user_id_by_external_identity query statement
looked_up s p u known = ap (λ o. (ok o, undisturbed s s)) known

user_found :
    (s d : Db) (p : AuthenticatedPrincipal) (u : ℕ)
    → Knows s p u
    → require_existing_user p (undisturbed d s) ≡ (ok u, undisturbed s s)
unfolding require_existing_user find_existing lookup_identity
user_found s d p u known =
    bind_ok (find_existing p) (or_raise action_not_found) (some u) (undisturbed d s)
      (undisturbed s s) _
      (session_undisturbed (get_user_id_by_external_identity p.issuer p.subject) (some u) s s s d
        (looked_up s p u known))
      refl

module _ (resolves : Text → Text → Bool) (s : Db) (k u : ℕ) (a : WorkflowAction)
    (row : ConnectorAccount) (account : ConnectorAccountRecord) (account_id : ℕ)
    (body message : Text) (ready : IsReady resolves s k u a row account account_id body message)
    (now : ℕ) where
  abbrev begun : WorkflowAction
  begun = moved resolves s k u a row account account_id body message ready

  abbrev begun_rows : Db
  begun_rows = started resolves s k u a row account account_id body message ready

  abbrev pub done : WorkflowAction
  done = record begun { status = executed; executed_at = some now }

  abbrev pub done_rows : Db
  done_rows = saved_in done executing begun_rows

  found_begun : select_first (is_owned a.id a.owner_user_id) begun_rows.actions ≡ some begun
  found_begun =
      found_again a begun approved s
        (own_found resolves s k u a row account account_id body message ready)
        (ap (λ (t : WorkflowActionStatus). status_eq t approved) ready.approval)
        (own resolves s k u a row account account_id body message ready) refl

  one_begun : Unique a.id begun_rows
  one_begun =
      subst (λ n. n ≤ 1)
        (sym (
          count_where-update_where (has_id a.id) (is_expected begun approved)
            (lifecycle_values begun) s.actions (λ r. refl)))
        (own_one resolves s k u a row account account_id body message ready)

  done-IsStored : IsStored done
  done-IsStored =
      let stored = moved-IsStored resolves s k u a row account account_id body message ready in
      record {
        proposed = stored.proposed;
        body = stored.body;
        message = stored.message;
        consistent =
            perform-IsConsistent finishing now begun done stored.consistent
              (mark_executed_executing now begun refl);
      }

  found_by_request : select_first (is_owned k u) begun_rows.actions ≡ some begun
  found_by_request =
      let ids = same resolves s k u a row account account_id body message ready in
      subst (λ o. select_first (is_owned k o) begun_rows.actions ≡ some begun) ids.1
        (subst (λ i. select_first (is_owned i a.owner_user_id) begun_rows.actions ≡ some begun)
          ids.0 found_begun)

  abbrev then_finish : Option WorkflowAction → Exec Db WorkflowAction
  then_finish found = do
    action ← or_raise action_not_found found
    moved ← lift (mark_executed now action)
    result ← save_owned moved executing
    saved ← lift (require_save_success result)
    commit
    pure saved

  finish_undisturbed :
      (d : Db)
      → commit_terminal now true u k (undisturbed d begun_rows)
        ≡ (ok done, undisturbed done_rows done_rows)
  unfolding commit_terminal finish_execution require_save_success commit
  finish_undisturbed d =
      let w = undisturbed begun_rows begun_rows in
      let w' = undisturbed done_rows begun_rows in
      session_undisturbed _ done begun_rows done_rows done_rows d (
        bind_ok (get_owned k u) then_finish (some begun) w w _
          (get_owned-undisturbed k u begun begun_rows begun_rows found_by_request
            (moved-IsStored resolves s k u a row account account_id body message ready))
          (bind_ok (lift (mark_executed now begun)) _ done w w _
            (ap (λ (r : Result WorkflowAction). (r, w)) (mark_executed_executing now begun refl))
            (bind_ok (save_owned done executing) _ (success done) w w' _
              (save_owned-undisturbed begun done executing begun_rows begun_rows found_begun refl
                (own resolves s k u a row account account_id body message ready) refl done-IsStored
                one_begun)
              refl)))

  prepared :
      (p : AuthenticatedPrincipal) (executor : CommunicationActionExecution → ExecutorOutcome)
      → Knows s p u
      → prepare resolves executor now k p (undisturbed s s) ≡ (
        ok (u, command resolves s k u a row account account_id body message ready),
        undisturbed begun_rows begun_rows,
      )
  unfolding prepare
  prepared p executor known =
      bind_ok (require_existing_user p) _ u (undisturbed s s) (undisturbed s s) _
        (user_found s s p u known)
        (bind_ok (commit_executing resolves u k) _
          (command resolves s k u a row account account_id body message ready) (undisturbed s s)
          (undisturbed begun_rows begun_rows) _
          (commit_executing-undisturbed resolves s k u a row account account_id body message ready
            s)
          refl)

  abbrev sent_command : CommunicationActionExecution
  sent_command = command_of a account account_id body message

  abbrev run_of : Result WorkflowAction × World Db → Run
  run_of r = record { sent = sent_command ∷ []; result = r.0; world = r.1 }

  outcome_recorded :
      record_outcome now delivered u sent_command k (undisturbed begun_rows begun_rows)
      ≡ (ok done, undisturbed done_rows done_rows)
  unfolding record_outcome
  outcome_recorded = finish_undisturbed begun_rows

  -- When no call of the database fails, no other session writes and the executor delivers the
  -- command of the action, execute by a known user on a stored and approved action of unique id,
  -- with a usable and routed account, hands exactly that command to the executor and returns the
  -- action as executed at the present time, with its conditional updates committed.
  pub execute-undisturbed :
      (p : AuthenticatedPrincipal) (executor : CommunicationActionExecution → ExecutorOutcome)
      → Knows s p u
      → executor (command_of a account account_id body message) ≡ delivered
      → execute resolves executor now k p (undisturbed s s) ≡ (record {
        sent = command_of a account account_id body message ∷ [];
        result = ok done;
        world = undisturbed done_rows done_rows;
      })
  unfolding execute deliver
  execute-undisturbed p executor known sends =
      ap
        (λ (r : Result (ℕ × CommunicationActionExecution) × World Db).
          deliver resolves executor now k r.0 r.1)
        (prepared p executor known)
      ∙ ap
          (λ (o : ExecutorOutcome).
            run_of (record_outcome now o u sent_command k (undisturbed begun_rows begun_rows)))
          sends
      ∙ ap run_of outcome_recorded
