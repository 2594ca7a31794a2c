-- ===== src/WorkItems/Checked.antt =====
-- `_context` of app/infrastructure/storage/repositories/business_work_item.py: what `mutate_owned`
-- asks of the context of a changed item.
use mathlib.Core.List.{Mem}
use mathlib.Core.Path.{subst}
use enterprise_communication.Prelude.{
  ℕ, ◌≡◌, inl, inr, refl, sym, ap, Bool, true, ◌&&◌, Option, none, some, List, ◌==◌, ==_iff, arith,
  Bool-cases,
}
use enterprise_communication.Errors.{item_not_found, context_archived}
use enterprise_communication.Storage.Table.{select_first, select_first-holds}
use enterprise_communication.Storage.Db.{Db}
use enterprise_communication.Storage.UnitOfWork.{World, advance}
use enterprise_communication.Storage.Yields.{Yields, Yields-pure, Yields-raise, Yields-bind}
use enterprise_communication.Storage.Returned.{select_first-Mem, Yields-query}
use enterprise_communication.Contexts.Model.{BusinessContext, is_active as context_is_active}
use enterprise_communication.WorkItems.Model.{option_eq}
use enterprise_communication.WorkItems.Repository.{
  usable_context, require_active_context, require_context,
}

-- A context of the user that is active
pub record Usable (context_id user_id : ℕ) (s : Db) : Type 0 where
  pub row : BusinessContext
  pub stored : Mem row s.contexts
  pub id : row.id ≡ context_id
  pub owner : row.owner_user_id ≡ user_id
  pub active : context_is_active row.status ≡ true

-- The context of an item is left as it was or taken away, or the new one is found usable.
pub data Checked (user_id : ℕ) (old new : Option ℕ) (start : World Db) : World Db → Type 0 where
  removed : new ≡ none → Checked user_id old new start start
  unchanged : new ≡ old → Checked user_id old new start start
  found_usable :
      (context_id : ℕ)
      → new ≡ some context_id
      → Usable context_id user_id (advance start).pending
      → Checked user_id old new start (advance start)

usable_context-Usable :
    (context_id user_id : ℕ) (start : World Db) (o : Option BusinessContext)
    → Yields
        (λ w.
          (w ≡ advance start)
          × (o
              ≡ select_first
                  (λ (c : BusinessContext). c.id == context_id && c.owner_user_id == user_id)
                  (advance start).pending.contexts))
        (usable_context o)
        (λ _ w. (w ≡ advance start) × Usable context_id user_id (advance start).pending)
usable_context-Usable context_id user_id start none = Yields-raise item_not_found
usable_context-Usable context_id user_id start (some c) =
    elim (Bool-cases (context_is_active c.status)) [
      | inr e ↦ rw e (Yields-raise context_archived)
      | inl e ↦ rw e (
          Yields-pure tt (λ w h.
            let test : BusinessContext → Bool =
              λ (c : BusinessContext). c.id == context_id && c.owner_user_id == user_id in
            let rows : List BusinessContext = (advance start).pending.contexts in
            let passes : test c ≡ true = select_first-holds test rows c (sym h.1) in
            (
              h.0,
              record {
                row = c;
                stored = select_first-Mem test rows c (sym h.1);
                id = ground (arith, ==_iff c.id context_id);
                owner = ground (arith, ==_iff c.owner_user_id user_id);
                active = e;
              },
            )))
    ]

require_active_context-Usable :
    (context_id user_id : ℕ) (start : World Db)
    → Yields
        (λ w. w ≡ start)
        (require_active_context context_id user_id)
        (λ _ w. (w ≡ advance start) × Usable context_id user_id (advance start).pending)
unfolding require_active_context
require_active_context-Usable context_id user_id start =
    Yields-bind _ _ _
      (Yields-query
        (λ (s : Db).
          select_first (λ (c : BusinessContext). c.id == context_id && c.owner_user_id == user_id)
            s.contexts)
        (λ w same. rw same (refl, refl)))
      (usable_context-Usable context_id user_id start)

option_eq-same :
    (c : ℕ) (old : Option ℕ) → option_eq (λ a b. a == b) (some c) old ≡ true → some c ≡ old
option_eq-same c none h = absurd (cc)
option_eq-same c (some d) h = ap some ((==_iff c d).0 h)

pub require_context-Checked :
    (user_id : ℕ) (old new : Option ℕ) (start : World Db)
    → Yields
        (λ w. w ≡ start)
        (require_context user_id old new)
        (λ _ w. Checked user_id old new start w)
require_context-Checked user_id old none start = Yields-pure tt (λ w same. rw same (removed refl))
require_context-Checked user_id old (some c) start =
    elim (Bool-cases (option_eq (λ a b. a == b) (some c) old)) [
      | inl e ↦ rw e (Yields-pure tt (λ w same. rw same (unchanged (option_eq-same c old e))))
      | inr e ↦ rw e (record {
        at = λ w h a ran.
            let (same, usable) = (require_active_context-Usable c user_id start).at w h a ran in
            subst (Checked user_id old (some c) start) (sym same) (found_usable c refl usable);
      })
    ]
