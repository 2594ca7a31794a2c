-- ===== src/Contexts/Model.antt =====
-- app/domain/models/business_context.py. Identifiers and times are numbers; a method returns the new
-- record.
use enterprise_communication.Prelude.{
  ℕ, Bool, true, false, not, ◌&&◌, Option, none, some, ltb, if◌then◌else◌, present,
}
use enterprise_communication.Text.{Text, strip, len, is_empty, require_non_empty_text}
use enterprise_communication.Errors.{Result, ok, err, invalid_value, context_not_mutable, ◌>>=◌}

pub data BusinessContextType : Type 0 where
  matter case_context project client transaction account other : BusinessContextType

pub data BusinessContextStatus : Type 0 where
  active archived : BusinessContextStatus

abbrev pub is_active : BusinessContextStatus → Bool
is_active active = true
is_active archived = false

pub record BusinessContext : Type 0 where
  pub id : ℕ
  pub owner_user_id : ℕ
  pub type : BusinessContextType
  pub title : Text
  pub description : Option Text
  pub reference : Option Text
  pub status : BusinessContextStatus
  pub archived_at : Option ℕ
  pub created_at : ℕ
  pub updated_at : ℕ

-- `validate_title`
unfoldable pub validate_title : Text → Result Text
unfolding require_non_empty_text
validate_title value = do
  normalized ← require_non_empty_text value
  if ltb 200 (len normalized) then err invalid_value else ok normalized

-- The body that `validate_description` and `validate_reference` share
unfoldable pub bounded_text : ℕ → Option Text → Result (Option Text)
bounded_text limit none = ok none
bounded_text limit (some value) =
    let normalized = strip value in
    if is_empty normalized
    then ok none
    else if ltb limit (len normalized)
    then err invalid_value
    else ok (some normalized)

unfoldable pub validate_description : Option Text → Result (Option Text)
unfolding bounded_text
validate_description value = bounded_text 4000 value

unfoldable pub validate_reference : Option Text → Result (Option Text)
unfolding bounded_text
validate_reference value = bounded_text 128 value

-- `_validate_status_archived_at`: whether it returns
unfoldable pub status_archived_at_ok : BusinessContext → Bool
status_archived_at_ok c =
    if is_active c.status then not (present c.archived_at) else present c.archived_at

-- `validate_lifecycle`
unfoldable pub validate_lifecycle : Bool → BusinessContext → Result BusinessContext
unfolding status_archived_at_ok
validate_lifecycle rehydrate c =
    if not rehydrate && not (is_active c.status)
    then err invalid_value
    else if status_archived_at_ok c
    then ok c
    else err invalid_value

-- `model_validate`, and `rehydrate` when the flag is set
unfoldable pub validate : Bool → BusinessContext → Result BusinessContext
unfolding validate_title validate_description validate_reference validate_lifecycle
validate rehydrate c = do
  title ← validate_title c.title
  description ← validate_description c.description
  reference ← validate_reference c.reference
  validate_lifecycle rehydrate
      (record c { title = title; description = description; reference = reference })

-- The arguments of `apply_update`: `none` is what was not given.
pub record ContextUpdate : Type 0 where
  pub type : Option BusinessContextType
  pub title : Option Text
  pub description : Option (Option Text)
  pub reference : Option (Option Text)

abbrev pub updated : {A : Type 0} → (A → Result A) → A → Option A → Result A
updated validate old none = ok old
updated validate old (some value) = validate value

abbrev pub or_old : {A : Type 0} → A → Option A → A
or_old old none = old
or_old old (some value) = value

unfoldable pub apply_update : ℕ → ContextUpdate → BusinessContext → Result BusinessContext
unfolding validate_title validate_description validate_reference
apply_update now patch c = if not (is_active c.status) then err context_not_mutable else (do
  title ← updated validate_title c.title patch.title
  description ← updated validate_description c.description patch.description
  reference ← updated validate_reference c.reference patch.reference
  ok (record c {
    type = or_old c.type patch.type;
    title = title;
    description = description;
    reference = reference;
    updated_at = now;
  }))

-- A status is one of the two, so the transition error of `archive` and `restore` is out of reach.
unfoldable pub archive : ℕ → BusinessContext → BusinessContext
archive now c =
    if is_active c.status
    then record c { status = archived; archived_at = some now; updated_at = now }
    else c

unfoldable pub restore : ℕ → BusinessContext → BusinessContext
restore now c =
    if is_active c.status
    then c
    else record c { status = active; archived_at = none; updated_at = now }
