-- ===== src/Workflow/Begun.antt =====
-- The two facts about the rows of `workflow_actions` that sessions rely on from each other: unique
-- ids, and executions that have begun.
use mathlib.Core.Option
use mathlib.Core.Path.{subst}
use enterprise_communication.Prelude.{
  ℕ, ◌≡◌, refl, ◌≤◌, Bool, true, false, Option, none, some, arith, ◌==◌, if◌then◌else◌, any, ==_iff,
  Bool-cases, inl, inr,
}
use enterprise_communication.Storage.Table.{
  select_first, count_where, select_first-update_where, count_where-update_where, count_where-none,
  select_first-none,
}
use enterprise_communication.Storage.Db.{Db}
use enterprise_communication.Storage.Keeps.{Stable, Keeps, Keeps-statement}
use enterprise_communication.Workflow.Model.{
  WorkflowAction, WorkflowActionStatus, executing, executed, failed, status_eq,
}
use enterprise_communication.Workflow.Repository.{
  is_expected, lifecycle_values, insert_action, update_lifecycle,
}

abbrev pub has_id : ℕ → WorkflowAction → Bool
has_id id row = row.id == id

abbrev pub is_begun : WorkflowActionStatus → Bool
is_begun executing = true
is_begun executed = true
is_begun failed = true
is_begun _ = false

abbrev pub begun : Option WorkflowAction → Bool
begun none = false
begun (some row) = is_begun row.status

abbrev pub Unique : ℕ → Db → Type 0
Unique id s = count_where (has_id id) s.actions ≤ 1

abbrev pub Begun : ℕ → Db → Type 0
Begun id s = begun (select_first (has_id id) s.actions) ≡ true

-- What the writes of a session do to the workflow actions.
pub record IsHonest (g : Db → Db) : Type 0 where
  pub unique : (id : ℕ) (s : Db) → Unique id s → Unique id (g s)
  pub begun : (id : ℕ) (s : Db) → Begun id s → Begun id (g s)

pub Unique-stable : (id : ℕ) → Stable IsHonest (Unique id)
Unique-stable id = record { keeps = λ g h. h.unique id }

pub Begun-stable : (id : ℕ) → Stable IsHonest (Begun id)
Begun-stable id = record { keeps = λ g h. h.begun id }

pub insert_action-Unique :
    (id : ℕ) (a : WorkflowAction) → Keeps IsHonest (Unique id) (insert_action a)
unfolding insert_action
insert_action-Unique id a = Keeps-statement (Unique-stable id) _ (λ s h.
    elim (Bool-cases (any (has_id a.id) s.actions)) [
      | inl e ↦ rw e h
      | inr e ↦ rw e (ground (arith, count_where-none (has_id a.id) s.actions e))
    ])

not_begun : (id : ℕ) (s : Db) → Begun id s → ¬ (any (has_id id) s.actions ≡ false)
not_begun id s h e = ground (arith, select_first-none (has_id id) s.actions e)

pub insert_action-Begun :
    (id : ℕ) (a : WorkflowAction) → Keeps IsHonest (Begun id) (insert_action a)
unfolding insert_action
insert_action-Begun id a = Keeps-statement (Begun-stable id) _ (λ s h.
    elim (Bool-cases (any (has_id a.id) s.actions)) [
      | inl e ↦ rw e h
      | inr e ↦ rw e (elim (Bool-cases (a.id == id)) [
        | inl same ↦ absurd (
            not_begun id s h
              (subst (λ k. any (has_id k) s.actions ≡ false) ((==_iff a.id id).0 same) e))
        | inr apart ↦ rw apart h
      ])
    ])

pub update_lifecycle-Unique :
    (id : ℕ) (a : WorkflowAction) (expected : WorkflowActionStatus)
    → Keeps IsHonest (Unique id) (update_lifecycle a expected)
unfolding update_lifecycle
update_lifecycle-Unique id a expected = Keeps-statement (Unique-stable id) _ (λ s h.
    rw
      (count_where-update_where (has_id id) (is_expected a expected) (lifecycle_values a) s.actions
        (λ r. refl))
      h)

status_eq_sound : (a b : WorkflowActionStatus) → status_eq a b ≡ true → is_begun a ≡ is_begun b
status_eq_sound a b h = ground arith

begun-written :
    (a : WorkflowAction) (expected : WorkflowActionStatus)
    → (is_begun expected ≡ true → is_begun a.status ≡ true)
    → (o : Option WorkflowAction) → begun o ≡ true
    → begun (Option.map (λ r. if is_expected a expected r then lifecycle_values a r else r) o)
      ≡ true
begun-written a _ forward none h = h
begun-written a expected forward (some r) h = ground (arith, status_eq_sound r.status expected)

-- A conditional update writes over a row that has begun only with a status that has begun.
pub update_lifecycle-Begun :
    (id : ℕ) (a : WorkflowAction) (expected : WorkflowActionStatus)
    → (is_begun expected ≡ true → is_begun a.status ≡ true)
    → Keeps IsHonest (Begun id) (update_lifecycle a expected)
unfolding update_lifecycle
update_lifecycle-Begun id a expected forward = Keeps-statement (Begun-stable id) _ (λ s h.
    rw
      (select_first-update_where (has_id id) (is_expected a expected) (lifecycle_values a) s.actions
        (λ r. refl))
      (begun-written a expected forward (select_first (has_id id) s.actions) h))
