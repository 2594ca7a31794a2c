-- ===== src/WorkItemTests.antt =====
-- Concrete runs of the repository of the work items.
use enterprise_communication.Prelude.{◌≡◌, refl, false, none, some, [], ◌∷◌}
use enterprise_communication.Text.{Text, text, strip}
use enterprise_communication.Errors.{ok}
use enterprise_communication.Storage.Table.{count_where}
use enterprise_communication.Storage.Db.{Db, no_rows}
use enterprise_communication.Storage.UnitOfWork.{World, query, statement}
use enterprise_communication.WorkItems.Model.{
  BusinessWorkItem, WorkItemCommand, WorkItemEvent, opened, completed, no_due, status, action,
  status_changed, status_metadata, validate, title_text, manual,
}
use enterprise_communication.WorkItems.Aggregate.{apply}
use enterprise_communication.WorkItems.Repository.{
  to_domain, is_expected, update_item, append_events, mutate_owned,
}
use enterprise_communication.WorkItems.Mutating.{
  IsMutated, update_item-spent, mutate_owned-IsMutated,
}
use enterprise_communication.WorkItems.Versions.{Accepted, apply-Accepted}

abbrev digest : Text
digest = text "0123456789abcdef0123456789abcdef0123456789abcdef0123456789abcdef"

abbrev item : BusinessWorkItem
item = record {
  id = 1;
  owner_user_id = 2;
  kind = action;
  title = text "call";
  description = none;
  business_context_id = none;
  due = no_due;
  status = opened;
  version = 3;
  completed_at = none;
  cancelled_at = none;
  archived_at = none;
  created_at = 4;
  updated_at = 5;
  creation_origin = manual;
  confirmed_by_user_id = none;
  confirmed_at = none;
  creation_key = text "k";
  creation_request_hash = digest;
  origin_candidate_key = none;
}

abbrev command : WorkItemCommand
command = record { expected_version = 3; operation = status completed false }

abbrev item_done : BusinessWorkItem
item_done = record item { status = completed; version = 4; completed_at = some 9; updated_at = 9 }

abbrev event_done : WorkItemEvent
event_done = record {
  work_item_id = 1;
  owner_user_id = 2;
  actor_user_id = 2;
  event_type = status_changed;
  occurred_at = 9;
  item_version = 4;
  event_ordinal = 0;
  context_at_event_id = none;
  metadata = status_metadata opened completed;
}

done : apply 9 2 command item ≡ ok (item_done, event_done ∷ [])
unfolding apply validate title_text strip
done = refl

apply-Accepted_example :
    (2 ≡ item.owner_user_id)
    × (command.expected_version ≡ item.version)
    × Accepted 9 item item_done (event_done ∷ [])
apply-Accepted_example = apply-Accepted 9 2 command item item_done (event_done ∷ []) done

abbrev one_item : Db
one_item = record no_rows { items = item ∷ [] }

abbrev undisturbed : World Db
undisturbed = record { pending = one_item; durable = one_item; turns = [] }

one_written : (update_item 1 2 3 item_done undisturbed).0 ≡ ok 1
unfolding update_item statement
one_written = refl

update_item-spent_example :
    count_where (is_expected 1 2 3) (update_item 1 2 3 item_done undisturbed).1.pending.items ≡ 0
update_item-spent_example =
    (update_item-spent 9 2 1 command item item_done event_done [] done).at undisturbed tt 1
      one_written

mutated : (mutate_owned 9 1 2 command undisturbed).0 ≡ ok item_done
unfolding mutate_owned to_domain apply update_item append_events query statement validate title_text
    strip
mutated = refl

mutate_owned-IsMutated_example :
    IsMutated 9 1 2 command undisturbed item_done (mutate_owned 9 1 2 command undisturbed).1
mutate_owned-IsMutated_example = mutate_owned-IsMutated 9 1 2 command undisturbed item_done mutated
