-- ===== src/Contexts/Service.antt =====
-- app/application/services/business_contexts.py. Logging is left out.
use enterprise_communication.Prelude.{ℕ, zero, suc, false, Option, none, some, List, [], min}
use enterprise_communication.Text.{Text}
use enterprise_communication.Errors.{
  Error, Result, ok, map_error, hide_persistence, context_not_found, context_conflict,
  context_not_mutable,
}
use enterprise_communication.Identity.Model.{AuthenticatedPrincipal}
use enterprise_communication.Identity.Resolver.{resolve_or_create, find_existing}
use enterprise_communication.Storage.Db.{Db}
use enterprise_communication.Storage.UnitOfWork.{
  Exec, ◌>>=◌, ◌>>◌, pure, raise, lift, catch, commit, with_uow,
}
use enterprise_communication.Contexts.Model.{
  BusinessContext, BusinessContextType, active, ContextUpdate, validate, apply_update, archive,
  restore,
}
use enterprise_communication.Contexts.Repository.{
  ContextFilter, add, get_owned, list_owned, save_owned,
}

abbrev pub or_not_found : Option BusinessContext → Exec Db BusinessContext
or_not_found none = raise context_not_found
or_not_found (some c) = pure c

abbrev pub user_or_not_found : Option ℕ → Exec Db ℕ
user_or_not_found none = raise context_not_found
user_or_not_found (some u) = pure u

-- `_require_existing_user`
unfoldable pub require_existing_user : AuthenticatedPrincipal → Exec Db ℕ
require_existing_user principal = do found ← find_existing principal; user_or_not_found found

unfoldable pub create :
    (now new_user new_identity new_id : ℕ)
    → AuthenticatedPrincipal
    → BusinessContextType
    → Text
    → Option Text
    → Option Text
    → Exec Db BusinessContext
unfolding validate add
create now new_user new_identity new_id principal type title description reference = do
  user_id ← resolve_or_create now new_user new_identity principal
  catch hide_persistence (
      with_uow (do
        c ← lift (
            validate false (record {
              id = new_id;
              owner_user_id = user_id;
              type = type;
              title = title;
              description = description;
              reference = reference;
              status = active;
              archived_at = none;
              created_at = now;
              updated_at = now;
            }))
        stored ← add c
        commit
        pure stored))

unfoldable pub get : AuthenticatedPrincipal → ℕ → Exec Db BusinessContext
unfolding require_existing_user get_owned
get principal context_id = do
  user_id ← require_existing_user principal
  found ← catch hide_persistence (with_uow (get_owned context_id user_id))
  or_not_found found

-- `max(1, min(limit, 100))`, for a limit that is not negative
abbrev page_limit : ℕ → ℕ
page_limit zero = 1
page_limit (suc n) = min (suc n) 100

abbrev list_of : (limit offset : ℕ) → ContextFilter → Option ℕ → Exec Db (List BusinessContext)
list_of limit offset f none = pure []
list_of limit offset f (some user_id) =
    catch hide_persistence (with_uow (list_owned user_id (page_limit limit) offset f))

unfoldable pub list :
    AuthenticatedPrincipal → (limit offset : ℕ) → ContextFilter → Exec Db (List BusinessContext)
unfolding list_owned
list principal limit offset f = do found ← find_existing principal; list_of limit offset f found

-- `except BusinessContextNotMutableError: raise BusinessContextConflictError`
abbrev pub as_conflict : Error → Error
as_conflict context_not_mutable = context_conflict
as_conflict e = e

-- The block that `update` and `_apply_lifecycle` share
unfoldable pub change_owned :
    (BusinessContext → Result BusinessContext) → ℕ → ℕ → Exec Db BusinessContext
unfolding get_owned save_owned
change_owned apply user_id context_id = do
  found ← get_owned context_id user_id
  c ← or_not_found found
  changed ← lift (apply c)
  result ← save_owned changed
  saved ← or_not_found result
  commit
  pure saved

unfoldable pub change :
    (BusinessContext → Result BusinessContext)
    → AuthenticatedPrincipal
    → ℕ
    → Exec Db BusinessContext
unfolding require_existing_user change_owned
change apply principal context_id = do
  user_id ← require_existing_user principal
  catch hide_persistence (with_uow (change_owned apply user_id context_id))

unfoldable pub update : ℕ → AuthenticatedPrincipal → ℕ → ContextUpdate → Exec Db BusinessContext
unfolding change apply_update
update now principal context_id patch =
    change (λ c. map_error as_conflict (apply_update now patch c)) principal context_id

-- `archive` and `restore` by `_apply_lifecycle`
unfoldable pub archive_context : ℕ → AuthenticatedPrincipal → ℕ → Exec Db BusinessContext
unfolding change archive
archive_context now principal context_id = change (λ c. ok (archive now c)) principal context_id

unfoldable pub restore_context : ℕ → AuthenticatedPrincipal → ℕ → Exec Db BusinessContext
unfolding change restore
restore_context now principal context_id = change (λ c. ok (restore now c)) principal context_id
