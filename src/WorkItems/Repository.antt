-- ===== src/WorkItems/Repository.antt =====
-- `get_owned`, `get_by_creation_key_owned` and `mutate_owned` of
-- app/infrastructure/storage/repositories/business_work_item.py, with the service's calls of them in
-- app/application/services/work_items.py. A row has the fields of the domain object. What fails
-- inside a savepoint leaves the session, which rolls back as a whole.
use enterprise_communication.Prelude.{
  ℕ, Bool, true, false, ◌&&◌, Option, none, some, List, [], ◌∷◌, ◌==◌, any, if◌then◌else◌,
}
use enterprise_communication.Text.{Text, text_eq}
use enterprise_communication.Errors.{
  Error, driver, persistence, item_not_found, version_conflict, context_archived, Result, ok, err,
  map_error, hide_persistence,
}
use enterprise_communication.Identity.Model.{AuthenticatedPrincipal}
use enterprise_communication.Identity.Resolver.{find_existing}
use enterprise_communication.Storage.Table.{select_first, update_where, count_where}
use enterprise_communication.Storage.Db.{Db}
use enterprise_communication.Storage.UnitOfWork.{
  Exec, ◌>>=◌, ◌>>◌, pure, raise, lift, catch, query, statement, commit, with_uow,
}
use enterprise_communication.Contexts.Model.{BusinessContext, is_active as context_is_active}
use enterprise_communication.WorkItems.Model.{
  BusinessWorkItem, WorkItemEvent, WorkItemCommand, option_eq, validate,
}
use enterprise_communication.WorkItems.Aggregate.{apply}

-- `_to_domain`
unfoldable pub to_domain : BusinessWorkItem → Result BusinessWorkItem
unfolding validate
to_domain row = map_error (λ e. persistence) (validate row)

abbrev pub domain_of : Option BusinessWorkItem → Result (Option BusinessWorkItem)
domain_of none = ok none
domain_of (some row) = elim (to_domain row) [ ok item ↦ ok (some item) | err e ↦ err e ]

abbrev pub is_owned : ℕ → ℕ → BusinessWorkItem → Bool
is_owned id user_id row = row.id == id && row.owner_user_id == user_id

abbrev pub has_creation_key : ℕ → Text → BusinessWorkItem → Bool
has_creation_key user_id key row = row.owner_user_id == user_id && text_eq row.creation_key key

-- `_safe_errors`
abbrev pub safe_error : Error → Error
safe_error driver = persistence
safe_error e = e

unfoldable pub get_by_creation_key_owned : ℕ → Text → Exec Db (Option BusinessWorkItem)
unfolding to_domain
get_by_creation_key_owned user_id key = catch safe_error (do
  row ← query (λ (s : Db). select_first (has_creation_key user_id key) s.items)
  lift (domain_of row))

unfoldable pub get_owned : ℕ → ℕ → Exec Db (Option BusinessWorkItem)
unfolding to_domain
get_owned item_id user_id = catch safe_error (do
  row ← query (λ (s : Db). select_first (is_owned item_id user_id) s.items)
  lift (domain_of row))

-- The row that the conditional update is to find
abbrev pub is_expected : (item_id user_id version : ℕ) → BusinessWorkItem → Bool
is_expected item_id user_id version row = is_owned item_id user_id row && row.version == version

-- `mutable`
abbrev pub mutable_values : BusinessWorkItem → BusinessWorkItem → BusinessWorkItem
mutable_values item row = record row {
  title = item.title;
  description = item.description;
  business_context_id = item.business_context_id;
  due = item.due;
  status = item.status;
  completed_at = item.completed_at;
  cancelled_at = item.cancelled_at;
  archived_at = item.archived_at;
  updated_at = item.updated_at;
  version = item.version;
}

unfoldable pub update_item : (item_id user_id version : ℕ) → BusinessWorkItem → Exec Db ℕ
update_item item_id user_id version item = statement (λ (s : Db). (
  count_where (is_expected item_id user_id version) s.items,
  record s {
    items = update_where (is_expected item_id user_id version) (mutable_values item) s.items;
  },
))

-- The unique constraint on the order of an item's events
abbrev pub same_order : WorkItemEvent → WorkItemEvent → Bool
same_order a b =
    a.work_item_id == b.work_item_id
    && a.item_version == b.item_version
    && a.event_ordinal == b.event_ordinal

abbrev pub require_inserted : Bool → Exec Db (Unit {0})
require_inserted true = pure tt
require_inserted false = raise persistence

-- `_append_events`
unfoldable pub append_events : List WorkItemEvent → Exec Db (Unit {0})
append_events [] = pure tt
append_events (event ∷ events) = do
  inserted ← statement (λ (s : Db).
      if any (same_order event) s.item_events
      then (false, s)
      else (true, record s { item_events = event ∷ s.item_events }))
  require_inserted inserted
  append_events events

-- `_context`, with `active` set
abbrev pub usable_context : Option BusinessContext → Exec Db (Unit {0})
usable_context none = raise item_not_found
usable_context (some c) = if context_is_active c.status then pure tt else raise context_archived

unfoldable pub require_active_context : (context_id user_id : ℕ) → Exec Db (Unit {0})
require_active_context context_id user_id = do
  row ←
      query (λ (s : Db).
        select_first (λ c. c.id == context_id && c.owner_user_id == user_id) s.contexts)
  usable_context row

abbrev pub require_context : ℕ → (old new : Option ℕ) → Exec Db (Unit {0})
require_context user_id old none = pure tt
require_context user_id old (some context_id) =
    if option_eq (λ a b. a == b) (some context_id) old
    then pure tt
    else require_active_context context_id user_id

abbrev pub or_not_found : {A : Type 0} → Option A → Exec Db A
or_not_found none = raise item_not_found
or_not_found (some a) = pure a

-- From `if not events` on
abbrev pub write :
    (item_id user_id version : ℕ)
    → (old updated : BusinessWorkItem) → List WorkItemEvent
    → Exec Db BusinessWorkItem
write item_id user_id version old updated [] = pure old
write item_id user_id version old updated (event ∷ events) = do
  require_context user_id old.business_context_id updated.business_context_id
  rowcount ← update_item item_id user_id version updated
  if rowcount == 1 then append_events (event ∷ events) else raise version_conflict
  pure updated

unfoldable pub mutate_owned : (now item_id user_id : ℕ) → WorkItemCommand → Exec Db BusinessWorkItem
unfolding to_domain apply update_item append_events require_active_context
mutate_owned now item_id user_id command = catch safe_error (do
  row ← query (λ (s : Db). select_first (is_owned item_id user_id) s.items)
  found ← lift (domain_of row)
  old ← or_not_found found
  (updated, events) ← lift (apply now user_id command old)
  write item_id user_id command.expected_version old updated events)

-- `_owner`
unfoldable pub owner : AuthenticatedPrincipal → Exec Db ℕ
owner principal = do found ← find_existing principal; or_not_found found

-- `mutate` of the service, by `_run`
unfoldable pub mutate : ℕ → AuthenticatedPrincipal → ℕ → WorkItemCommand → Exec Db BusinessWorkItem
unfolding owner mutate_owned
mutate now principal item_id command = do
  user_id ← owner principal
  catch hide_persistence
      (with_uow (do item ← mutate_owned now item_id user_id command; commit; pure item))
