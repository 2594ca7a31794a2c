-- ===== src/WorkItems/Plans.antt =====
-- `apply` of app/domain/models/business_work_item.py: what an operation plans to change.
use mathlib.Core.Path.{subst}
use enterprise_communication.Prelude.{
  ℕ, ◌≡◌, ◌≢◌, refl, Bool, true, false, not, ◌||◌, ◌++◌, Option, none, some, List, [], ◌==◌, arith,
  if◌then◌else◌, present,
}
use enterprise_communication.Text.{Text}
use enterprise_communication.Errors.{Error, not_editable, ok, err}
use enterprise_communication.WorkItems.Model.{
  WorkItemStatus, Operation, edit, status, archive, restore, WorkItemEdit, BusinessWorkItem,
  option_eq, DueValue, title_field, description_field, due_field,
}
use enterprise_communication.WorkItems.Aggregate.{
  plan, plan_edit, plan_status, plan_archive, plan_restore, Draft, changed, context_drafts,
  edited_drafts, listed,
}

-- What no command changes.
pub record SameItem (a b : BusinessWorkItem) : Type 0 where
  pub id : a.id ≡ b.id
  pub owner_user_id : a.owner_user_id ≡ b.owner_user_id
  pub created_at : a.created_at ≡ b.created_at
  pub creation_key : a.creation_key ≡ b.creation_key
  pub creation_request_hash : a.creation_request_hash ≡ b.creation_request_hash
  pub origin_candidate_key : a.origin_candidate_key ≡ b.origin_candidate_key

-- A plan changes the item and says so in an event.
pub record IsPlan (item next : BusinessWorkItem) (drafts : List Draft) : Type 0 where
  pub same : SameItem item next
  pub told : drafts ≢ []

context_told :
    (old target : Option ℕ)
    → option_eq (λ a b. a == b) target old ≡ false
    → context_drafts old (some target) ≢ []
context_told none none h = absurd (cc)
context_told none (some b) h = λ e. absurd (cc)
context_told (some a) none h = λ e. absurd (cc)
context_told (some a) (some b) h = λ e. absurd (cc)

changed-some :
    {A : Type 0} (eq : A → A → Bool) (old : A) (o : Option A) (value : A)
    → changed eq old o ≡ some value
    → eq value old ≡ false
changed-some eq old none value h = absurd (cc)
changed-some eq old (some v) value h = ground arith

-- Whichever field is changed, there is an event.
edit_told :
    (title : Option Text) (description : Option (Option Text)) (due : Option DueValue)
    (context : Option (Option ℕ)) (old : Option ℕ) (old_due : DueValue)
    → (present title || present description || present due || present context) ≡ true
    → ((target : Option ℕ) → context ≡ some target → context_drafts old (some target) ≢ [])
    → edited_drafts old
          (listed title_field title
            ++ (listed description_field description ++ listed due_field due))
          old_due
          due
        ++ context_drafts old context
      ≢ []
edit_told (some t) d u c old old_due h k = λ e. absurd (cc)
edit_told none (some d) u c old old_due h k = λ e. absurd (cc)
edit_told none none (some u) c old old_due h k = λ e. absurd (cc)
edit_told none none none (some c) old old_due h k = k c refl
edit_told none none none none old old_due h k = absurd (cc)

picked :
    {A : Type 0} (e : Error) (b c : Bool) (x y : A)
    → (if not b then err e else if c then ok (some x) else ok none) ≡ ok (some y)
    → (c ≡ true) × (x ≡ y)
picked e b c x y h = ground arith

plan_edit-IsPlan :
    (patch : WorkItemEdit) (item next : BusinessWorkItem) (drafts : List Draft)
    → plan_edit patch item ≡ ok (some (next, drafts))
    → IsPlan item next drafts
unfolding plan_edit
plan_edit-IsPlan patch item next drafts h =
    let (some_change, same) = picked not_editable _ _ _ (next, drafts) h in
    subst (λ (p : BusinessWorkItem × List Draft). IsPlan item p.0 p.1) same
      (record {
        same = record {
          id = refl;
          owner_user_id = refl;
          created_at = refl;
          creation_key = refl;
          creation_request_hash = refl;
          origin_candidate_key = refl;
        };
        told = edit_told _ _ _ _ _ _ some_change (λ target e.
            context_told item.business_context_id target (
              changed-some (option_eq {A = ℕ} (λ a b. a == b)) item.business_context_id
                patch.business_context_id target e));
      })

plan_status-IsPlan :
    (now : ℕ) (target : WorkItemStatus) (reopen : Bool) (item next : BusinessWorkItem)
    (drafts : List Draft)
    → plan_status now target reopen item ≡ ok (some (next, drafts))
    → IsPlan item next drafts
unfolding plan_status
plan_status-IsPlan now target reopen item next drafts h = ground arith

pub plan-IsPlan :
    (now : ℕ) (operation : Operation) (item next : BusinessWorkItem) (drafts : List Draft)
    → plan now operation item ≡ ok (some (next, drafts))
    → IsPlan item next drafts
unfolding plan plan_archive plan_restore
plan-IsPlan now (edit patch) item next drafts h =
    ground (arith, plan_edit-IsPlan patch item next drafts)
plan-IsPlan now (status target reopen) item next drafts h =
    ground (arith, plan_status-IsPlan now target reopen item next drafts)
plan-IsPlan now archive item next drafts h = ground arith
plan-IsPlan now restore item next drafts h = ground arith
