-- ===== src/WorkItems/Model.antt =====
-- The values of app/domain/models/business_work_item.py, with the events of
-- business_work_item_event.py and the text rules of work_item_intent.py and work_item_due.py. A
-- time is a number, as in the workflow actions; a due value is one that its validators have
-- accepted.
use enterprise_communication.Prelude.{
  ℕ, Bool, true, false, not, ◌&&◌, ◌||◌, Option, none, some, List, ◌==◌, leb, if◌then◌else◌,
  present, all,
}
use enterprise_communication.Text.{Text, strip, len, is_empty, text_eq}
use enterprise_communication.Errors.{Result, ok, err, invalid_value, ◌>>=◌}

pub data WorkItemKind : Type 0 where
  action obligation : WorkItemKind

-- `opened` is `OPEN`.
pub data WorkItemStatus : Type 0 where
  opened in_progress completed cancelled : WorkItemStatus

abbrev status_index : WorkItemStatus → ℕ
status_index opened = 0
status_index in_progress = 1
status_index completed = 2
status_index cancelled = 3

abbrev pub status_eq : WorkItemStatus → WorkItemStatus → Bool
status_eq a b = status_index a == status_index b

-- `status in ACTIVE`
abbrev pub is_active : WorkItemStatus → Bool
is_active opened = true
is_active in_progress = true
is_active _ = false

pub data WorkItemOrigin : Type 0 where
  manual ai_confirmed : WorkItemOrigin

pub data WorkItemEventType : Type 0 where
  created edited status_changed archived restored context_associated context_disassociated :
      WorkItemEventType

-- `DueValue`: no date, a calendar date, or an instant, each with its zone.
pub data DueValue : Type 0 where
  no_due : DueValue
  date_due timed_due : (value : ℕ) (timezone : Text) → DueValue

abbrev pub due_eq : DueValue → DueValue → Bool
due_eq no_due no_due = true
due_eq (date_due d z) (date_due e y) = d == e && text_eq z y
due_eq (timed_due d z) (timed_due e y) = d == e && text_eq z y
due_eq _ _ = false

-- Equality of two values that may be `None`.
abbrev pub option_eq : {A : Type 0} → (A → A → Bool) → Option A → Option A → Bool
option_eq eq none none = true
option_eq eq (some a) (some b) = eq a b
option_eq eq _ _ = false

-- `title_text`
unfoldable pub title_text : Text → Result Text
title_text value =
    let title = strip value in
    if leb 1 (len title) && leb (len title) 200 then ok title else err invalid_value

-- `description_text`
unfoldable pub description_text : Option Text → Result (Option Text)
description_text none = ok none
description_text (some value) =
    let description = strip value in
    if not (leb (len description) 4000)
    then err invalid_value
    else ok (if is_empty description then none else some description)

-- `WorkItemEdit`: a field that is `none` is not in `model_fields_set`. The values have passed the
-- field validators.
pub record WorkItemEdit : Type 0 where
  pub title : Option Text
  pub description : Option (Option Text)
  pub due : Option DueValue
  pub business_context_id : Option (Option ℕ)

-- `operation`, with the arguments that `shape` demands for it and the ones it refuses left out
pub data Operation : Type 0 where
  edit : (patch : WorkItemEdit) → Operation
  status : (target : WorkItemStatus) (reopen : Bool) → Operation
  archive restore : Operation

pub record WorkItemCommand : Type 0 where
  pub expected_version : ℕ
  pub operation : Operation

pub record BusinessWorkItem : Type 0 where
  pub id : ℕ
  pub owner_user_id : ℕ
  pub kind : WorkItemKind
  pub title : Text
  pub description : Option Text
  pub business_context_id : Option ℕ
  pub due : DueValue
  pub status : WorkItemStatus
  pub version : ℕ
  pub completed_at : Option ℕ
  pub cancelled_at : Option ℕ
  pub archived_at : Option ℕ
  pub created_at : ℕ
  pub updated_at : ℕ
  pub creation_origin : WorkItemOrigin
  pub confirmed_by_user_id : Option ℕ
  pub confirmed_at : Option ℕ
  pub creation_key : Text
  pub creation_request_hash : Text
  pub origin_candidate_key : Option Text

-- The names in `changed_fields`
pub data ContentField : Type 0 where
  title_field description_field due_field : ContentField

pub data Metadata : Type 0 where
  created_metadata : (due : DueValue) (creation_origin : WorkItemOrigin) → Metadata
  edited_metadata :
      (changed_fields : List ContentField) (old_due new_due : Option DueValue) → Metadata
  status_metadata : (old_status new_status : WorkItemStatus) → Metadata
  context_metadata : (from_context_id to_context_id : Option ℕ) → Metadata
  empty_metadata : Metadata

-- The fields of `WorkItemEvent` but its own random id
pub record WorkItemEvent : Type 0 where
  pub work_item_id : ℕ
  pub owner_user_id : ℕ
  pub actor_user_id : ℕ
  pub event_type : WorkItemEventType
  pub occurred_at : ℕ
  pub item_version : ℕ
  pub event_ordinal : ℕ
  pub context_at_event_id : Option ℕ
  pub metadata : Metadata

-- One of the timestamps that the loop in `invariants` looks at
abbrev not_before : ℕ → Option ℕ → Bool
not_before start none = true
not_before start (some t) = leb start t

-- The confirmation metadata that the origin asks for
abbrev confirmation_ok : WorkItemOrigin → BusinessWorkItem → Bool
confirmation_ok manual item =
    not (present item.confirmed_by_user_id)
    && not (present item.confirmed_at)
    && not (present item.origin_candidate_key)
confirmation_ok ai_confirmed item =
    present item.confirmed_at
    && present item.origin_candidate_key
    && option_eq (λ a b. a == b) item.confirmed_by_user_id (some item.owner_user_id)

-- `c in "0123456789abcdef"`, and `validate_digest`
abbrev is_hex : ℕ → Bool
is_hex c = leb 48 c && leb c 57 || leb 97 c && leb c 102

unfoldable pub digest_ok : Text → Bool
digest_ok value = len value == 64 && all is_hex value

abbrev optional_digest_ok : Option Text → Bool
optional_digest_ok none = true
optional_digest_ok (some value) = digest_ok value

-- `invariants`: whether it returns the item
unfoldable pub invariants : BusinessWorkItem → Bool
invariants item =
    (if status_eq item.status completed
      then present item.completed_at
      else not (present item.completed_at))
    && (if status_eq item.status cancelled
        then present item.cancelled_at
        else not (present item.cancelled_at))
    && leb item.created_at item.updated_at
    && not_before item.created_at item.completed_at
    && not_before item.created_at item.cancelled_at
    && not_before item.created_at item.archived_at
    && not_before item.created_at item.confirmed_at
    && confirmation_ok item.creation_origin item
    && optional_digest_ok item.origin_candidate_key

-- A character of `[A-Za-z0-9._~-]`, and `validate_creation_key`
abbrev is_key_character : ℕ → Bool
is_key_character c =
    leb 65 c && leb c 90
    || leb 97 c && leb c 122
    || leb 48 c && leb c 57
    || c == 46
    || c == 95
    || c == 126
    || c == 45

unfoldable pub creation_key_ok : Text → Bool
creation_key_ok value = leb 1 (len value) && leb (len value) 128 && all is_key_character value

-- `valid_text_encoding` of app/domain/models/work_item_due.py: no null character and no surrogate
unfoldable pub valid_text_encoding : Text → Bool
valid_text_encoding value = all (λ c. not (c == 0) && not (leb 55296 c && leb c 57343)) value

abbrev optional_text_ok : Option Text → Bool
optional_text_ok none = true
optional_text_ok (some value) = valid_text_encoding value

-- What `FrozenValue` and the bound of the version ask for
abbrev pub fields_ok : BusinessWorkItem → Bool
fields_ok item =
    valid_text_encoding item.title
    && optional_text_ok item.description
    && valid_text_encoding item.creation_key
    && valid_text_encoding item.creation_request_hash
    && optional_text_ok item.origin_candidate_key
    && leb 1 item.version

-- `BusinessWorkItem.model_validate`
unfoldable pub validate : BusinessWorkItem → Result BusinessWorkItem
unfolding valid_text_encoding title_text description_text creation_key_ok digest_ok invariants
validate item = do
  title ← title_text item.title
  description ← description_text item.description
  let item' = record item { title = title; description = description } in
      if fields_ok item'
        && creation_key_ok item.creation_key
        && digest_ok item.creation_request_hash
        && invariants item'
      then ok item'
      else err invalid_value
