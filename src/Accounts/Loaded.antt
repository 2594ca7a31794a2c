-- ===== src/Accounts/Loaded.antt =====
-- What `load_owned` of app/application/services/connector_accounts.py has read when it returns.
use mathlib.Core.List.{Mem}
use enterprise_communication.Prelude.{
  ℕ, ◌≡◌, refl, sym, ap, ◌∙◌, true, Option, none, some, ==_iff, arith,
}
use enterprise_communication.Text.{text_eq_iff}
use enterprise_communication.Errors.{ok, account_not_found, hide_persistence}
use enterprise_communication.Identity.Model.{ExternalIdentity, AuthenticatedPrincipal}
use enterprise_communication.Identity.Resolver.{
  is_identity, user_id_of, get_user_id_by_external_identity, lookup_identity, find_existing,
}
use enterprise_communication.Storage.Table.{select_first, select_first-holds}
use enterprise_communication.Storage.Db.{Db}
use enterprise_communication.Storage.UnitOfWork.{World, Exec, ◌>>=◌, advance, pure, with_uow, catch}
use enterprise_communication.Storage.Yields.{
  Yields, Yields-pure, Yields-raise, Yields-catch, Yields-bind,
}
use enterprise_communication.Storage.Returned.{select_first-Mem, Yields-query, closed, Yields-block}
use enterprise_communication.Accounts.Model.{ConnectorAccount, ConnectorAccountRecord, to_record}
use enterprise_communication.Accounts.Repository.{is_owned, record_of, get_owned}
use enterprise_communication.Accounts.Service.{or_not_found, load_owned}

-- The committed rows that a block sees in its query: two calls of the driver later
abbrev pub seen : World Db → World Db
seen w = advance (advance w)

-- A row of the committed identities maps the principal to the user.
pub record Known (principal : AuthenticatedPrincipal) (user_id : ℕ) (s : Db) : Type 0 where
  pub row : ExternalIdentity
  pub stored : Mem row s.identities
  pub issuer : row.issuer ≡ principal.issuer
  pub subject : row.subject ≡ principal.subject
  pub user : row.user_id ≡ user_id

-- A row of the committed accounts is the requested account of the user.
pub record Owned (id user_id : ℕ) (account : ConnectorAccountRecord) (s : Db) : Type 0 where
  pub row : ConnectorAccount
  pub stored : Mem row s.accounts
  pub requested : row.id ≡ id
  pub owner : row.user_id ≡ user_id
  pub read : to_record row ≡ ok account
  pub locator : row.credential_ref ≡ account.credential_ref

identity_found :
    (principal : AuthenticatedPrincipal) (user_id : ℕ) (s : Db) (o : Option ExternalIdentity)
    → o ≡ select_first (is_identity principal.issuer principal.subject) s.identities
    → user_id_of o ≡ some user_id
    → Known principal user_id s
identity_found principal user_id s none here h = absurd (cc)
identity_found principal user_id s (some row) here h =
    let test = is_identity principal.issuer principal.subject in
    let passes : test row ≡ true = select_first-holds test s.identities row (sym here) in
    record {
      row = row;
      stored = select_first-Mem test s.identities row (sym here);
      issuer = (text_eq_iff row.issuer principal.issuer).0 (ground arith);
      subject = (text_eq_iff row.subject principal.subject).0 (ground arith);
      user = cc;
    }

record_of-read :
    (row : ConnectorAccount) (account : ConnectorAccountRecord)
    → record_of (some row) ≡ ok (some account)
    → to_record row ≡ ok account
record_of-read row account h = ground arith

to_record-credential_ref :
    (row : ConnectorAccount) (account : ConnectorAccountRecord)
    → to_record row ≡ ok account
    → row.credential_ref ≡ account.credential_ref
unfolding to_record
to_record-credential_ref row account h = ground arith

account_found :
    (id user_id : ℕ) (account : ConnectorAccountRecord) (s : Db) (o : Option ConnectorAccount)
    → o ≡ select_first (is_owned id user_id) s.accounts
    → record_of o ≡ ok (some account)
    → Owned id user_id account s
account_found id user_id account s none here h = absurd (cc)
account_found id user_id account s (some row) here h =
    let here' : to_record row ≡ ok account = record_of-read row account h in
    let mine : is_owned id user_id row ≡ true =
      select_first-holds (is_owned id user_id) s.accounts row (sym here) in
    record {
      row = row;
      stored = select_first-Mem (is_owned id user_id) s.accounts row (sym here);
      requested = ground (arith, ==_iff row.id id);
      owner = ground (arith, ==_iff row.user_id user_id);
      read = here';
      locator = to_record-credential_ref row account here';
    }

module _ (principal : AuthenticatedPrincipal) (id : ℕ) (start : World Db) where
  abbrev FoundUser : Option ℕ → World Db → Type 0
  FoundUser o w =
      (w ≡ closed (seen start))
      × ((user_id : ℕ) → o ≡ some user_id → Known principal user_id (seen start).durable)

  find_existing-Known : Yields (λ w. w ≡ start) (find_existing principal) FoundUser
  unfolding find_existing lookup_identity get_user_id_by_external_identity
  find_existing-Known = Yields-catch hide_persistence _ (
      Yields-block start FoundUser _ (
        Yields-query
          (λ (s : Db).
            user_id_of (select_first (is_identity principal.issuer principal.subject) s.identities))
          (λ w same.
            rw same
              (refl, λ user_id h. identity_found principal user_id (seen start).durable _ refl h))))

  abbrev FoundAccount : ℕ → Option ConnectorAccountRecord → World Db → Type 0
  FoundAccount user_id o w =
      (account : ConnectorAccountRecord)
      → o ≡ some account
      → Owned id user_id account (seen (seen start)).durable

  get_owned-Owned :
      (user_id : ℕ)
      → Yields
          (λ w. w ≡ closed (seen start))
          (with_uow (get_owned id user_id))
          (FoundAccount user_id)
  unfolding get_owned
  get_owned-Owned user_id = Yields-block (closed (seen start)) (FoundAccount user_id) _ (
      Yields-bind
        (λ o w. o ≡ select_first (is_owned id user_id) (seen (seen start)).durable.accounts) _ _
        (Yields-query (λ (s : Db). select_first (is_owned id user_id) s.accounts)
          (λ w same.
            ap (λ (v : World Db). select_first (is_owned id user_id) (advance v).pending.accounts)
              same))
        (λ o. record {
          at = λ w here r h account e.
              account_found id user_id account (seen (seen start)).durable o here (h ∙ ap ok e);
        }))

  abbrev Loaded : ℕ × ConnectorAccountRecord → World Db → Type 0
  Loaded loaded w =
      Known principal loaded.0 (seen start).durable
      × Owned id loaded.0 loaded.1 (seen (seen start)).durable

  abbrev load : ℕ → Exec Db (ℕ × ConnectorAccountRecord)
  load user_id = do
    loaded ← catch hide_persistence (with_uow (get_owned id user_id))
    r ← or_not_found loaded
    pure (user_id, r)

  or_not_found-Loaded : (o : Option ℕ) → Yields (FoundUser o) (or_not_found o >>= load) Loaded
  or_not_found-Loaded none = Yields-raise account_not_found
  or_not_found-Loaded (some user_id) = record {
    at = λ w h.
        (Yields-bind (FoundAccount user_id) _ _
            (Yields-catch hide_persistence _ (get_owned-Owned user_id))
            (λ o. known_account user_id (h.1 user_id refl) o)).at
          w h.0;
  }
    where
      known_account :
          (user_id : ℕ)
          → Known principal user_id (seen start).durable
          → (o : Option ConnectorAccountRecord)
          → Yields (FoundAccount user_id o) (or_not_found o >>= λ r. pure (user_id, r)) Loaded
      known_account user_id known none = Yields-raise account_not_found
      known_account user_id known (some r) = Yields-pure (user_id, r) (λ w h. (known, h r refl))

  -- The account that is loaded is committed as one of the user of the principal.
  pub load_owned-Loaded : Yields (λ w. w ≡ start) (load_owned principal id) Loaded
  unfolding load_owned
  load_owned-Loaded = Yields-bind FoundUser _ _ find_existing-Known or_not_found-Loaded
