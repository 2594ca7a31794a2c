-- ===== src/WorkItems/Aggregate.antt =====
-- `create`, `overdue`, `apply` and `_event` of app/domain/models/business_work_item.py. The time of
-- the call is an argument, and so is the calendar of the time zones.
use mathlib.Core.Option
use enterprise_communication.Prelude.{
  ℕ, suc, ◌+◌, Bool, false, not, ◌&&◌, ◌||◌, Option, none, some, List, [], ◌∷◌, ◌++◌, ◌==◌, ltb,
  if◌then◌else◌, present,
}
use enterprise_communication.Text.{Text, text_eq}
use enterprise_communication.Errors.{
  Result, ok, err, item_not_found, version_conflict, not_editable, item_invalid_transition, ◌>>=◌,
}
use enterprise_communication.WorkItems.Model.{
  WorkItemStatus, opened, completed, cancelled, status_eq, is_active, WorkItemKind, WorkItemOrigin,
  WorkItemEventType, created, edited, status_changed, archived, restored, context_associated,
  context_disassociated, DueValue, no_due, date_due, timed_due, due_eq, option_eq, WorkItemEdit,
  Operation, edit, status, archive, restore, WorkItemCommand, BusinessWorkItem, ContentField,
  title_field, description_field, due_field, Metadata, created_metadata, edited_metadata,
  status_metadata, context_metadata, empty_metadata, WorkItemEvent, validate,
}

-- `_event`
unfoldable pub event :
    BusinessWorkItem → WorkItemEventType → ℕ → Option ℕ → Metadata → WorkItemEvent
event item type ordinal context metadata = record {
  work_item_id = item.id;
  owner_user_id = item.owner_user_id;
  actor_user_id = item.owner_user_id;
  event_type = type;
  occurred_at = item.updated_at;
  item_version = item.version;
  event_ordinal = ordinal;
  context_at_event_id = context;
  metadata = metadata;
}

-- What the constructor of an item is given besides the intent's own keys.
unfoldable pub create :
    (now new_id owner_user_id : ℕ) (creation_key request_hash : Text) (candidate_key : Option Text)
    (kind : WorkItemKind) (title : Text) (description : Option Text) (due : DueValue)
    (context : Option ℕ) (origin : WorkItemOrigin) (confirmed : Bool)
    → Result (BusinessWorkItem × List WorkItemEvent)
unfolding validate event
create now new_id owner_user_id creation_key request_hash candidate_key kind title description due
      context origin confirmed =
    do
      item ← validate (record {
        id = new_id;
        owner_user_id = owner_user_id;
        kind = kind;
        title = title;
        description = description;
        business_context_id = context;
        due = due;
        status = opened;
        version = 1;
        completed_at = none;
        cancelled_at = none;
        archived_at = none;
        created_at = now;
        updated_at = now;
        creation_origin = origin;
        confirmed_by_user_id = if confirmed then some owner_user_id else none;
        confirmed_at = if confirmed then some now else none;
        creation_key = creation_key;
        creation_request_hash = request_hash;
        origin_candidate_key = candidate_key;
      })
      ok (
        item,
        event item created 0 item.business_context_id
              (created_metadata item.due item.creation_origin)
            ∷ [],
      )

-- `overdue`, for a time with a zone; `local_date zone t` is the calendar date of `t` there.
abbrev due_passed : (Text → ℕ → ℕ) → DueValue → ℕ → Bool
due_passed local_date no_due now = false
due_passed local_date (date_due date timezone) now = ltb date (local_date timezone now)
due_passed local_date (timed_due at timezone) now = ltb at now

unfoldable pub overdue : (Text → ℕ → ℕ) → BusinessWorkItem → ℕ → Bool
overdue local_date item now =
    if present item.archived_at || not (is_active item.status)
    then false
    else due_passed local_date item.due now

-- The entry of `changes` for a field, if there is one.
abbrev pub changed : {A : Type 0} → (A → A → Bool) → A → Option A → Option A
changed eq old none = none
changed eq old (some value) = if eq value old then none else some value

abbrev pub or_old : {A : Type 0} → A → Option A → A
or_old old none = old
or_old old (some value) = value

abbrev pub listed : {A B : Type 0} → B → Option A → List B
listed b none = []
listed b (some a) = b ∷ []

-- The entries of `events`, before they have the ordinal and the version
abbrev pub Draft : Type 0
Draft = WorkItemEventType × Option ℕ × Metadata

abbrev pub edited_drafts : Option ℕ → List ContentField → DueValue → Option DueValue → List Draft
edited_drafts context [] old new = []
edited_drafts context (f ∷ fs) old new =
    (edited, context, edited_metadata (f ∷ fs) (Option.map (λ d. old) new) new) ∷ []

abbrev pub context_drafts : Option ℕ → Option (Option ℕ) → List Draft
context_drafts context none = []
context_drafts context (some target) =
    let payload = context_metadata context target in
    listed (context_disassociated, context, payload) context
    ++ listed (context_associated, target, payload) target

-- `changes` and `events`: the item with the changes written over it, or nothing when `changes` is
-- empty
abbrev pub Plan : Type 0
Plan = Option (BusinessWorkItem × List Draft)

-- `op == "edit"`
unfoldable pub plan_edit : WorkItemEdit → BusinessWorkItem → Result Plan
plan_edit patch item =
    let title = changed text_eq item.title patch.title in
    let description = changed (option_eq text_eq) item.description patch.description in
    let due = changed due_eq item.due patch.due in
    let context =
      changed (option_eq (λ a b. a == b)) item.business_context_id patch.business_context_id in
    let details =
      listed title_field title ++ (listed description_field description ++ listed due_field due) in
    if not (is_active item.status)
    then err not_editable
    else if present title || present description || present due || present context
    then ok (
        some (
          record item {
            title = or_old item.title title;
            description = or_old item.description description;
            due = or_old item.due due;
            business_context_id = or_old item.business_context_id context;
          },
          edited_drafts item.business_context_id details item.due due
              ++ context_drafts item.business_context_id context,
        ))
    else ok none

-- `op == "status"`, with the two timestamps that go with a status
unfoldable pub plan_status : ℕ → WorkItemStatus → Bool → BusinessWorkItem → Result Plan
plan_status now target reopen item =
    let reopening = not (is_active item.status) && status_eq target opened in
    if (if reopen then not reopening else reopening)
      || not (is_active item.status) && not (status_eq target item.status) && not reopening
    then err item_invalid_transition
    else if status_eq target item.status
    then ok none
    else ok (
        some (
          record item {
            status = target;
            completed_at = if status_eq target completed then some now else none;
            cancelled_at = if status_eq target cancelled then some now else none;
          },
          (status_changed, item.business_context_id, status_metadata item.status target) ∷ [],
        ))

-- `op == "archive"` and `op == "restore"`
unfoldable pub plan_archive : ℕ → BusinessWorkItem → Result Plan
plan_archive now item =
    if present item.archived_at
    then ok none
    else ok (
        some (
          record item { archived_at = some now },
          (archived, item.business_context_id, empty_metadata) ∷ [],
        ))

unfoldable pub plan_restore : BusinessWorkItem → Result Plan
plan_restore item =
    if present item.archived_at
    then ok (
        some (
          record item { archived_at = none },
          (restored, item.business_context_id, empty_metadata) ∷ [],
        ))
    else ok none

unfoldable pub plan : ℕ → Operation → BusinessWorkItem → Result Plan
unfolding plan_edit plan_status plan_archive plan_restore
plan now (edit patch) item =
    if present item.archived_at then err not_editable else plan_edit patch item
plan now (status target reopen) item =
    if present item.archived_at then err not_editable else plan_status now target reopen item
plan now archive item = plan_archive now item
plan now restore item = plan_restore item

-- `enumerate(events)`
unfoldable pub numbered : BusinessWorkItem → ℕ → List Draft → List WorkItemEvent
unfolding event
numbered item i [] = []
numbered item i ((type, context, metadata) ∷ drafts) =
    event item type i context metadata ∷ numbered item (suc i) drafts

-- From `if not changes` on
unfoldable pub settle : ℕ → BusinessWorkItem → Plan → Result (BusinessWorkItem × List WorkItemEvent)
unfolding validate numbered
settle now item none = ok (item, [])
settle now item (some (next, drafts)) = do
  updated ← validate (record next { updated_at = now; version = item.version + 1 })
  ok (updated, numbered updated 0 drafts)

unfoldable pub apply :
    ℕ → ℕ → WorkItemCommand → BusinessWorkItem → Result (BusinessWorkItem × List WorkItemEvent)
unfolding plan settle
apply now owner_user_id command item =
    if not (owner_user_id == item.owner_user_id)
    then err item_not_found
    else if not (command.expected_version == item.version)
    then err version_conflict
    else (do changes ← plan now command.operation item; settle now item changes)
