-- ===== src/Workflow/Refusing.antt =====
-- `_commit_executing` of app/application/services/workflow_action_execution.py, on an action whose
-- execution has begun.
use enterprise_communication.Prelude.{
  ℕ, ◌≡◌, refl, Bool, true, Option, none, some, arith, Bool-cases, inl, inr, if◌then◌else◌,
}
use enterprise_communication.Errors.{ok, action_not_found}
use enterprise_communication.Text.{Text}
use enterprise_communication.Storage.Table.{select_first, select_first-same}
use enterprise_communication.Storage.Db.{Db}
use enterprise_communication.Storage.Keeps.{Safe, Stable, Safe-advance}
use enterprise_communication.Storage.Yields.{
  Yields, Yields-pure, Yields-raise, Yields-catch, Yields-bind, Yields-bind-lift, Yields-with_uow,
  Yields-statement,
}
use enterprise_communication.Storage.UnitOfWork.{World, query, advance}
use enterprise_communication.Workflow.Model.{WorkflowAction, approved, mark_executing, status_eq}
use enterprise_communication.Workflow.Lifecycle.{perform-source, starting}
use enterprise_communication.Workflow.Repository.{get_owned, to_domain, is_owned, domain_of}
use enterprise_communication.Workflow.Begun.{has_id, is_begun, Unique, Begun, IsHonest}
use enterprise_communication.Workflow.Service.{or_raise}
use enterprise_communication.Workflow.Execution.{start_execution, commit_executing}

begun_refused :
    (a b : WorkflowAction)
    → is_begun a.status ≡ true
    → ¬ ((if status_eq a.status approved then ok a else mark_executing a) ≡ ok b)
begun_refused a b going e = elim (Bool-cases (status_eq a.status approved)) [
  | inl same ↦ ground arith
  | inr other ↦ ground (arith, perform-source starting 0 a b)
]

to_domain-begun :
    (row a : WorkflowAction) → to_domain row ≡ ok a → is_begun a.status ≡ is_begun row.status
unfolding to_domain
to_domain-begun row a h = ground arith

domain_of-begun :
    (o : Option WorkflowAction)
    → ((r : WorkflowAction) → o ≡ some r → is_begun r.status ≡ true)
    → (p : Option WorkflowAction) → domain_of o ≡ ok p
    → (a : WorkflowAction) → p ≡ some a
    → is_begun a.status ≡ true
domain_of-begun none k p e a q = ground arith
domain_of-begun (some r) k p e a q = ground (arith, k r refl, to_domain-begun r a)

-- The one row with the id of an action that has begun.
owned-begun :
    (id user_id : ℕ) (s : Db) (r : WorkflowAction)
    → Unique id s
    → Begun id s
    → select_first (is_owned id user_id) s.actions ≡ some r
    → is_begun r.status ≡ true
owned-begun id user_id s r one going e = ground (
  arith,
  select_first-same (has_id id) (is_owned id user_id) s.actions r (λ x h. ground arith) one e,
)

abbrev pub Underway : ℕ → Db → Type 0
Underway id s = Unique id s × Begun id s

pub Underway-stable : (id : ℕ) → Stable IsHonest (Underway id)
Underway-stable id = record { keeps = λ g h s u. (h.unique id s u.0, h.begun id s u.1) }

module _ (id user_id : ℕ) where
  abbrev AllBegun : Option WorkflowAction → World Db → Type 0
  AllBegun o w = (a : WorkflowAction) → o ≡ some a → is_begun a.status ≡ true

  get_owned_begun : Yields (Safe IsHonest (Underway id)) (get_owned id user_id) AllBegun
  unfolding get_owned query
  get_owned_begun =
      Yields-bind AllBegun (query (λ s. select_first (is_owned id user_id) s.actions)) _
        (Yields-statement (λ s. (select_first (is_owned id user_id) s.actions, s))
          (λ w h r e.
            let u = (Safe-advance IsHonest (Underway-stable id) w h).pending in
            owned-begun id user_id (advance w).pending r u.0 u.1 e))
        (λ o. record { at = λ w h p e a q. domain_of-begun o h p e a q })

  or_raise_begun :
      (o : Option WorkflowAction)
      → Yields (AllBegun o) (or_raise action_not_found o) (λ a w. is_begun a.status ≡ true)
  or_raise_begun none = Yields-raise action_not_found
  or_raise_begun (some a) = Yields-pure a (λ w h. h a refl)

  start_execution_refused :
      (resolves : Text → Text → Bool) (a : WorkflowAction)
      → Yields (λ w. is_begun a.status ≡ true) (start_execution resolves user_id a) (λ c w. ⊥)
  unfolding start_execution
  start_execution_refused resolves a = record {
    at = λ w going.
        (Yields-bind-lift {Pre = λ w. Unit {0}} {Post = λ c w. ⊥}
            (if status_eq a.status approved then ok a else mark_executing a) _
            (λ b e. absurd (begun_refused a b going e))).at
          w tt;
  }

  -- For an action whose execution has begun, _commit_executing returns no command.
  pub commit_executing_refused :
      (resolves : Text → Text → Bool)
      → Yields (Safe IsHonest (Underway id)) (commit_executing resolves user_id id) (λ c w. ⊥)
  unfolding commit_executing
  commit_executing_refused resolves = Yields-catch _ _ (
      Yields-with_uow (λ c w. ⊥) _ (Underway-stable id)
        (Yields-bind AllBegun (get_owned id user_id) _ get_owned_begun (λ row.
          Yields-bind (λ a w. is_begun a.status ≡ true) (or_raise action_not_found row) _
            (or_raise_begun row) (start_execution_refused resolves))))
