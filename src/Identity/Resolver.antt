-- ===== src/Identity/Resolver.antt =====
-- app/application/services/identity.py and app/infrastructure/storage/repositories/identity.py:
-- the mapping from a verified (issuer, subject) to a user. A fresh `uuid4()` is an argument.
use enterprise_communication.Prelude.{
  ℕ, Bool, true, false, ◌&&◌, Option, none, some, ◌∷◌, any, if◌then◌else◌, present,
}
use enterprise_communication.Text.{Text, text_eq}
use enterprise_communication.Errors.{
  Error, persistence, duplicate_identity, hide_persistence, err, ok, Result,
}
use enterprise_communication.Storage.Table.{select_first}
use enterprise_communication.Storage.Db.{Db}
use enterprise_communication.Storage.UnitOfWork.{
  Exec, ◌>>=◌, ◌>>◌, pure, raise, catch, query, statement, rollback, commit, with_uow,
}
use enterprise_communication.Identity.Model.{
  User, ExternalIdentity, ApplicationRole, AuthenticatedPrincipal,
}

abbrev pub is_identity : Text → Text → ExternalIdentity → Bool
is_identity issuer subject row = text_eq row.issuer issuer && text_eq row.subject subject

abbrev pub user_id_of : Option ExternalIdentity → Option ℕ
user_id_of none = none
user_id_of (some row) = some row.user_id

unfoldable pub get_user_id_by_external_identity : Text → Text → Exec Db (Option ℕ)
get_user_id_by_external_identity issuer subject =
    query (λ s. user_id_of (select_first (is_identity issuer subject) s.identities))

-- The flush inside `begin_nested`: the unique constraint on (issuer, subject) refuses the insert
-- and the savepoint leaves the session's view as it was.
unfoldable pub insert_identity : User → ExternalIdentity → Exec Db Bool
insert_identity u row = statement (λ s.
    if any (is_identity row.issuer row.subject) s.identities
    then (false, s)
    else (true, record s { users = u ∷ s.users; identities = row ∷ s.identities }))

abbrev require_inserted : Bool → Error → Exec Db (Unit {0})
require_inserted true e = pure tt
require_inserted false e = raise e

unfoldable pub create_user_with_external_identity : ℕ → ℕ → ℕ → Text → Text → Exec Db ℕ
unfolding get_user_id_by_external_identity insert_identity
create_user_with_external_identity now user_id row_id issuer subject = do
  existing ← get_user_id_by_external_identity issuer subject
  if present existing then raise duplicate_identity else do
    inserted ←
        insert_identity
          (record { id = user_id; application_role = ApplicationRole.user; updated_at = now })
          (record { id = row_id; user_id = user_id; issuer = issuer; subject = subject })
    require_inserted inserted duplicate_identity
    pure user_id

unfoldable pub lookup_identity : AuthenticatedPrincipal → Exec Db (Option ℕ)
lookup_identity p = with_uow (get_user_id_by_external_identity p.issuer p.subject)

unfoldable pub find_existing : AuthenticatedPrincipal → Exec Db (Option ℕ)
unfolding lookup_identity
find_existing p = catch hide_persistence (lookup_identity p)

-- `except PersistenceError as exc: if exc.message != _DUPLICATE_IDENTITY: raise` and the rollback:
-- `none` goes on behind the block.
abbrev after_create : Result ℕ → Exec Db (Option ℕ)
after_create (ok user_id) = pure (some user_id)
after_create (err duplicate_identity) = do rollback; pure none
after_create (err e) = raise e

abbrev pub attempt : {A : Type 0} → Exec Db A → Exec Db (Result A)
attempt m w = let (r, w') = m w in (ok r, w')

abbrev winner_of : Option ℕ → Exec Db ℕ
winner_of (some user_id) = pure user_id
winner_of none = raise persistence

module _ (now user_id row_id : ℕ) (p : AuthenticatedPrincipal) where
  resolve_in_uow : Option ℕ → Exec Db (Option ℕ)
  resolve_in_uow (some user) = pure (some user)
  resolve_in_uow none = do
    created ← attempt (do
      new ← create_user_with_external_identity now user_id row_id p.issuer p.subject
      commit
      pure new)
    after_create created

  resolve_or_retry : Option ℕ → Exec Db ℕ
  resolve_or_retry (some user) = pure user
  resolve_or_retry none = do winner ← lookup_identity p; winner_of winner

  unfoldable pub resolve_or_create : Exec Db ℕ
  unfolding resolve_in_uow resolve_or_retry lookup_identity create_user_with_external_identity
  resolve_or_create = catch hide_persistence (do
    found ←
        with_uow (do
          existing ← get_user_id_by_external_identity p.issuer p.subject
          resolve_in_uow existing)
    resolve_or_retry found)
