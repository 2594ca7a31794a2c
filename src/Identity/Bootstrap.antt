-- ===== src/Identity/Bootstrap.antt =====
-- app/application/services/owner_bootstrap.py, with the four methods of
-- app/infrastructure/storage/repositories/identity.py that it calls. The check constraint on
-- `application_role` makes the column an enumeration.
use mathlib.Core.Option
use enterprise_communication.Prelude.{
  ℕ, Bool, true, false, not, ◌&&◌, Option, none, some, ◌==◌, any, if◌then◌else◌, ltb,
}
use enterprise_communication.Errors.{
  Error, hide_persistence, bootstrap_target_not_found, bootstrap_identity_required,
  owner_already_exists, bootstrap_conflict,
}
use enterprise_communication.Storage.Table.{select_first, update_where, count_where}
use enterprise_communication.Storage.Db.{Db}
use enterprise_communication.Storage.UnitOfWork.{
  Exec, ◌>>=◌, ◌>>◌, pure, raise, catch, statement, query, commit, with_uow,
}
use enterprise_communication.Identity.Model.{ApplicationRole, user, owner, User, ExternalIdentity}

abbrev pub is_owner : User → Bool
is_owner u = elim u.application_role [ owner ↦ true | user ↦ false ]

abbrev pub has_user_id : ℕ → User → Bool
has_user_id id u = u.id == id

-- `WHERE id = … AND application_role = 'user'`
abbrev pub is_promotable : ℕ → User → Bool
is_promotable id u = u.id == id && not (is_owner u)

unfoldable pub get_application_role_for_user : ℕ → Exec Db (Option ApplicationRole)
get_application_role_for_user id =
    query
      (λ s. Option.map (λ (u : User). u.application_role) (select_first (has_user_id id) s.users))

unfoldable pub user_has_external_identity : ℕ → Exec Db Bool
user_has_external_identity id =
    query (λ s. any (λ (row : ExternalIdentity). row.user_id == id) s.identities)

unfoldable pub count_owners : Exec Db ℕ
count_owners = query (λ s. count_where is_owner s.users)

abbrev pub made_owner : ℕ → User → User
made_owner now u = record u { application_role = owner; updated_at = now }

unfoldable pub promote_user_role_from_user_to_owner : ℕ → ℕ → Exec Db Bool
promote_user_role_from_user_to_owner now id = statement (λ s. (
  ltb 0 (count_where (is_promotable id) s.users),
  record s { users = update_where (is_promotable id) (made_owner now) s.users },
))

pub data FirstOwnerBootstrapResult : Type 0 where
  promoted already_owner : FirstOwnerBootstrapResult

abbrev pub require_true : Bool → Error → Exec Db (Unit {0})
require_true true e = pure tt
require_true false e = raise e

module _ (now : ℕ) (user_id : ℕ) where
  -- From the conditional update on
  unfoldable pub promote : Exec Db FirstOwnerBootstrapResult
  unfolding promote_user_role_from_user_to_owner
  promote = do
    updated ← promote_user_role_from_user_to_owner now user_id
    require_true updated bootstrap_conflict
    commit
    pure promoted

  -- The tests on the role that was read and on the number of owners
  abbrev pub promote_from : ApplicationRole → ℕ → Exec Db FirstOwnerBootstrapResult
  promote_from owner owner_count = pure already_owner
  promote_from user owner_count = if ltb 0 owner_count then raise owner_already_exists else promote

  abbrev pub promote_known : Option ApplicationRole → Exec Db FirstOwnerBootstrapResult
  promote_known none = raise bootstrap_target_not_found
  promote_known (some role) = do
    mapped ← user_has_external_identity user_id
    require_true mapped bootstrap_identity_required
    owner_count ← count_owners
    promote_from role owner_count

  -- `_promote_first_owner`
  unfoldable pub promote_in_session : Exec Db FirstOwnerBootstrapResult
  unfolding promote get_application_role_for_user user_has_external_identity count_owners
  promote_in_session = do role ← get_application_role_for_user user_id; promote_known role

  unfoldable pub promote_first_owner : Exec Db FirstOwnerBootstrapResult
  unfolding promote_in_session
  promote_first_owner = catch hide_persistence (with_uow promote_in_session)
