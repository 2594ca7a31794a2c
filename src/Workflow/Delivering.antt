-- ===== src/Workflow/Delivering.antt =====
-- A run of `execute` in which no call of the database fails and no other session writes.

use enterprise_communication.Prelude.{ℕ, ◌≤◌, ◌≡◌, refl, ap, ◌∙◌, true, some, List, [], arith}
use enterprise_communication.Errors.{ok}
use enterprise_communication.Text.{require_non_empty_text}
use enterprise_communication.Storage.Table.{
  select_first, update_where, count_where, select_first-update_where, count_where-le,
  count_where-found,
}
use enterprise_communication.Storage.Db.{Db}
use enterprise_communication.Storage.UnitOfWork.{World, statement, query}
use enterprise_communication.Workflow.Model.{
  WorkflowAction, WorkflowActionStatus, approved, executing, executed, optional_text,
  validate_fields, rehydrate, mark_executing, mark_executed, status_eq,
}
use enterprise_communication.Workflow.Lifecycle.{IsConsistent, validate_lifecycle_exact}
use enterprise_communication.Workflow.Repository.{
  success, is_expected, is_owned, lifecycle_values, get_owned, update_lifecycle, save_owned,
  to_domain, domain_of,
}
use enterprise_communication.Workflow.Begun.{has_id, Unique}

-- A row as the service writes it: its texts are stripped and its fields fit its status.
pub record IsStored (a : WorkflowAction) : Type 0 where
  pub proposed : require_non_empty_text a.proposed_reply_body ≡ ok a.proposed_reply_body
  pub body : optional_text a.approved_reply_body ≡ ok a.approved_reply_body
  pub message : optional_text a.provider_message_id ≡ ok a.provider_message_id
  pub consistent : IsConsistent a

to_domain-IsStored : (a : WorkflowAction) → IsStored a → to_domain a ≡ ok a
unfolding to_domain rehydrate validate_fields
to_domain-IsStored a s =
    rw (s.proposed, s.body, s.message, (validate_lifecycle_exact a).1 s.consistent) refl

domain_of-IsStored : (a : WorkflowAction) → IsStored a → domain_of (some a) ≡ ok (some a)
domain_of-IsStored a s = rw (to_domain-IsStored a s, domain_of) refl

-- The world of a session that nobody disturbs
abbrev pub undisturbed : Db → Db → World Db
undisturbed pending durable = record { pending = pending; durable = durable; turns = [] }

abbrev pub saved_in : WorkflowAction → WorkflowActionStatus → Db → Db
saved_in a expected s = record s {
  actions = update_where (is_expected a expected) (lifecycle_values a) s.actions;
}

pub get_owned-undisturbed :
    (k u : ℕ) (a : WorkflowAction) (s d : Db)
    → select_first (is_owned k u) s.actions ≡ some a
    → IsStored a
    → get_owned k u (undisturbed s d) ≡ (ok (some a), undisturbed s d)
unfolding get_owned query statement
get_owned-undisturbed k u a s d found stored =
    ap (λ o. (domain_of o, undisturbed s d)) found
    ∙ ap (λ r. (r, undisturbed s d)) (domain_of-IsStored a stored)

-- The one row that the conditional update hits
one_hit :
    (a moved : WorkflowAction) (expected : WorkflowActionStatus) (rows : List WorkflowAction)
    → select_first (is_owned moved.id moved.owner_user_id) rows ≡ some a
    → status_eq a.status expected ≡ true
    → is_owned moved.id moved.owner_user_id a ≡ true
    → count_where (has_id moved.id) rows ≤ 1
    → count_where (is_expected moved expected) rows ≡ 1
one_hit a moved expected rows found at mine one =
    let some_row =
      count_where-found (is_owned moved.id moved.owner_user_id) (is_expected moved expected) rows a
        found (rw (mine, at) refl) in
    omega (
      arith,
      one,
      some_row,
      count_where-le (has_id moved.id) (is_expected moved expected) rows (λ r h. ground arith),
    )

pub found_again :
    (a moved : WorkflowAction) (expected : WorkflowActionStatus) (s : Db)
    → select_first (is_owned moved.id moved.owner_user_id) s.actions ≡ some a
    → status_eq a.status expected ≡ true
    → is_owned moved.id moved.owner_user_id a ≡ true
    → lifecycle_values moved a ≡ moved
    → select_first (is_owned moved.id moved.owner_user_id) (saved_in moved expected s).actions
      ≡ some moved
found_again a moved expected s found at mine written =
    select_first-update_where (is_owned moved.id moved.owner_user_id) (is_expected moved expected)
      (lifecycle_values moved) s.actions (λ r. refl)
    ∙ rw found (rw (mine, at) (ap some written))

pub save_owned-undisturbed :
    (a moved : WorkflowAction) (expected : WorkflowActionStatus) (s d : Db)
    → select_first (is_owned moved.id moved.owner_user_id) s.actions ≡ some a
    → status_eq a.status expected ≡ true
    → is_owned moved.id moved.owner_user_id a ≡ true
    → lifecycle_values moved a ≡ moved
    → IsStored moved
    → Unique moved.id s
    → save_owned moved expected (undisturbed s d)
      ≡ (ok (success moved), undisturbed (saved_in moved expected s) d)
unfolding save_owned update_lifecycle statement
save_owned-undisturbed a moved expected s d found at mine written stored one =
    rw (one_hit a moved expected s.actions found at mine one) (
      rw
        (get_owned-undisturbed moved.id moved.owner_user_id moved (saved_in moved expected s) d
          (found_again a moved expected s found at mine written) stored)
        refl)

pub mark_executing_approved :
    (a : WorkflowAction)
    → a.status ≡ approved
    → mark_executing a ≡ ok (record a { status = executing })
unfolding mark_executing
mark_executing_approved a h = rw h refl

pub mark_executed_executing :
    (now : ℕ) (a : WorkflowAction)
    → a.status ≡ executing
    → mark_executed now a ≡ ok (record a { status = executed; executed_at = some now })
unfolding mark_executed
mark_executed_executing now a h = rw h refl
