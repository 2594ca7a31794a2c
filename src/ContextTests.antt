-- ===== src/ContextTests.antt =====
-- Concrete runs of the business contexts.
use enterprise_communication.Prelude.{◌≡◌, refl, false, true, none, some, [], ◌∷◌}
use enterprise_communication.Text.{text, strip, require_non_empty_text}
use enterprise_communication.Errors.{ok, map_error}
use enterprise_communication.Storage.Table.{select_first, update_where}
use enterprise_communication.Storage.Db.{Db, no_rows}
use enterprise_communication.Storage.UnitOfWork.{World, query, with_uow}
use enterprise_communication.Contexts.Model.{
  BusinessContext, project, active, is_active, ContextUpdate, validate, validate_title,
  validate_description, validate_reference, bounded_text, validate_lifecycle, status_archived_at_ok,
  apply_update, archive,
}
use enterprise_communication.Contexts.Lifecycle.{
  SameContext, archiving, perform, perform-rehydrated,
}
use enterprise_communication.Contexts.Repository.{
  ContextFilter, is_owned, saved_values, page_of, list_owned, to_domain,
}
use enterprise_communication.Contexts.Listing.{IsListing, list_owned-IsListing}
use enterprise_communication.Contexts.Service.{change_owned, as_conflict}
use enterprise_communication.Contexts.Unarchived.{meanwhile, update-unarchives}

abbrev merger : BusinessContext
merger = record {
  id = 1;
  owner_user_id = 2;
  type = project;
  title = text "Merger";
  description = none;
  reference = some (text "M-1");
  status = active;
  archived_at = none;
  created_at = 5;
  updated_at = 5;
}

merger_valid : validate true merger ≡ ok merger
unfolding validate validate_title validate_description validate_reference bounded_text
    validate_lifecycle status_archived_at_ok require_non_empty_text strip
merger_valid = refl

archived_merger : perform archiving 9 merger ≡ ok (archive 9 merger)
archived_merger = refl

perform-rehydrated_example :
    (validate true (archive 9 merger) ≡ ok (archive 9 merger))
    × SameContext merger (archive 9 merger)
perform-rehydrated_example =
    perform-rehydrated archiving 9 merger (archive 9 merger) merger_valid archived_merger

abbrev later_one : BusinessContext
later_one = record merger { id = 3; created_at = 8 }

abbrev any_context : ContextFilter
any_context = record { status = some active; type = none; reference = none }

-- One of another user
abbrev foreign : BusinessContext
foreign = record merger { id = 4; owner_user_id = 3 }

abbrev three_contexts : World Db
three_contexts =
    let rows : Db = record no_rows { contexts = merger ∷ foreign ∷ later_one ∷ [] } in
    record { pending = rows; durable = rows; turns = [] }

second_page : (list_owned 2 1 1 any_context three_contexts).0 ≡ ok (merger ∷ [])
unfolding list_owned query to_domain validate validate_title validate_description validate_reference
    bounded_text validate_lifecycle status_archived_at_ok require_non_empty_text strip
second_page = refl

list_owned-IsListing_example :
    IsListing 2 1 1 any_context three_contexts
      (merger ∷ [])
      (list_owned 2 1 1 any_context three_contexts).1
list_owned-IsListing_example =
    list_owned-IsListing 2 1 1 any_context three_contexts (merger ∷ []) second_page

newest_is_first : page_of 1 0 2 any_context (merger ∷ later_one ∷ []) ≡ later_one ∷ []
unfolding page_of
newest_is_first = refl

abbrev one_context : Db
one_context = record no_rows { contexts = merger ∷ [] }

abbrev retitled : ContextUpdate
retitled = record { type = none; title = some (text "Sale"); description = none; reference = none }

abbrev sale : BusinessContext
sale = record merger { title = text "Sale"; updated_at = 7 }

sale_applied : apply_update 7 retitled merger ≡ ok sale
unfolding apply_update validate_title require_non_empty_text strip
sale_applied = refl

update-unarchives_example :
    let archived : Db → Db = λ t. record t {
      contexts = update_where (is_owned 1 2) (saved_values (archive 6 merger)) t.contexts;
    } in
    let (result, w) =
      with_uow
        (change_owned (λ x. map_error as_conflict (apply_update 7 retitled x)) 2 1)
        (record { pending = one_context; durable = one_context; turns = meanwhile archived }) in
    (is_active (archive 6 merger).status ≡ false)
    × (result ≡ ok sale)
    × (select_first (is_owned 1 2) w.durable.contexts ≡ some sale)
    × (is_active sale.status ≡ true)
update-unarchives_example =
    update-unarchives 7 6 retitled one_context one_context merger sale refl refl merger_valid
      sale_applied
