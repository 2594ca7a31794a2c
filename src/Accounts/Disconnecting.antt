-- ===== src/Accounts/Disconnecting.antt =====
-- `disconnect_owned` of app/application/services/connector_accounts.py: the secret of the account.
use mathlib.Core.Path.{subst}
use enterprise_communication.Prelude.{
  ℕ, ◌≡◌, ◌≢◌, refl, sym, Bool, true, false, Option, some, List, [], ◌∷◌, All, arith, Bool-cases,
  inl, inr,
}
use enterprise_communication.Text.{Text, is_empty, text_eq_iff}
use enterprise_communication.Errors.{Result, ok, err, service_unavailable}
use enterprise_communication.Identity.Model.{AuthenticatedPrincipal}
use enterprise_communication.Storage.Table.{delete_where}
use enterprise_communication.Storage.Db.{Db}
use enterprise_communication.Storage.UnitOfWork.{World, advance}
use enterprise_communication.Storage.Yields.{
  Yields, Yields-pure, Yields-raise, Yields-catch, Yields-bind, Yields-bind-lift, Yields-statement,
}
use enterprise_communication.Credentials.Store.{
  Secret, CommunicationCredentialRecord, Vault, has_ref, require_credential_ref, get, delete,
}
use enterprise_communication.Accounts.Model.{ConnectorAccountRecord}
use enterprise_communication.Accounts.Service.{load_owned}
use enterprise_communication.Accounts.Loaded.{seen, Known, Owned, load_owned-Loaded}
use enterprise_communication.Accounts.Disconnection.{
  Disconnected, as_unavailable, delete_stored_credential, clear, disconnect_row, finished,
  after_clear, after_load, disconnect,
}

-- The store holds nothing under a locator.
abbrev pub Gone : Text → World Vault → Type 0
Gone locator w =
    All (λ (r : CommunicationCredentialRecord). r.credential_ref ≢ locator) w.pending.records

delete_where-gone :
    (locator : Text) (rows : List CommunicationCredentialRecord)
    → All
        (λ (r : CommunicationCredentialRecord). r.credential_ref ≢ locator)
        (delete_where (has_ref locator) rows)
delete_where-gone locator [] = tt
delete_where-gone locator (r ∷ rows) = elim (Bool-cases (has_ref locator r)) [
  | inl e ↦ rw e (delete_where-gone locator rows)
  | inr e ↦ rw e (
    λ same. let found = (text_eq_iff r.credential_ref locator).1 same in cc,
    delete_where-gone locator rows,
  )
]

require_credential_ref-same :
    (ref locator : Text) → require_credential_ref ref ≡ ok locator → ref ≡ locator
unfolding require_credential_ref
require_credential_ref-same ref locator h = ground arith

delete-Gone : (locator : Text) → Yields (λ w. Unit {0}) (delete locator) (λ _. Gone locator)
unfolding delete
delete-Gone locator = Yields-bind-lift (require_credential_ref locator) _ (λ checked e.
    rw (require_credential_ref-same locator checked e)
      (Yields-statement _ (λ w _. delete_where-gone checked (advance w).pending.records)))

delete_stored_credential-Gone :
    (connected : Bool) (locator : Text)
    → Yields (λ w. Unit {0}) (delete_stored_credential connected locator) (λ _. Gone locator)
unfolding delete_stored_credential
delete_stored_credential-Gone false locator = Yields-raise service_unavailable
delete_stored_credential-Gone true locator = Yields-catch as_unavailable _ (
    Yields-bind (λ _ w. Unit {0}) (get locator) _ (record { at = λ w h a e. tt })
      (λ stored.
        Yields-bind (λ _. Gone locator) (delete locator) _ (delete-Gone locator)
          (λ _. Yields-pure _ (λ w h. h))))

clear-Gone :
    (connected : Bool) (locator : Text)
    → is_empty locator ≡ false
    → Yields (λ w. Unit {0}) (clear connected (some locator)) (λ _. Gone locator)
clear-Gone connected locator named = rw named (delete_stored_credential-Gone connected locator)

finished_vault :
    (r : ConnectorAccountRecord) (secret : Option Secret) (v : World Vault)
    (q : Result ConnectorAccountRecord × World Db)
    → (finished r secret v q).2 ≡ v
finished_vault r secret v (ok updated, d) = refl
finished_vault r secret v (err e, d) = refl

-- The step on the store has returned, and nothing behind it touches the store.
after_clear-ok :
    (now id : ℕ) (d : World Db) (loaded : ℕ × ConnectorAccountRecord)
    (q : Result (Option Secret) × World Vault) (result : Disconnected)
    → (after_clear now id d loaded q).0 ≡ ok result
    → (secret : Option Secret) × (q.0 ≡ ok secret) × ((after_clear now id d loaded q).2 ≡ q.1)
after_clear-ok now id d loaded (err e, v) result h = absurd (cc)
after_clear-ok now id d (user_id, r) (ok secret, v) result h =
    (secret, refl, finished_vault r secret v (disconnect_row now id user_id d))

is_empty-false : (locator : Text) → locator ≢ [] → is_empty locator ≡ false
is_empty-false [] h = absurd (h refl)
is_empty-false (c ∷ s) h = refl

-- The account that a disconnection has read when it returns, and what is left of its secret
pub record IsCleared (principal : AuthenticatedPrincipal) (id : ℕ) (start : World Db)
    (w : World Vault) : Type 0 where
  pub user_id : ℕ
  pub account : ConnectorAccountRecord
  pub known : Known principal user_id (seen start).durable
  pub owned : Owned id user_id account (seen (seen start)).durable
  pub gone :
      (locator : Text) → account.credential_ref ≡ some locator → locator ≢ [] → Gone locator w

after_load-IsCleared :
    (now id : ℕ) (connected : Bool) (principal : AuthenticatedPrincipal) (start : World Db)
    (v : World Vault) (p : Result (ℕ × ConnectorAccountRecord) × World Db) (result : Disconnected)
    → ((loaded : ℕ × ConnectorAccountRecord)
        → p.0 ≡ ok loaded
        → Known principal loaded.0 (seen start).durable
          × Owned id loaded.0 loaded.1 (seen (seen start)).durable)
    → (after_load now id connected v p).0 ≡ ok result
    → IsCleared principal id start (after_load now id connected v p).2
after_load-IsCleared now id connected principal start v (err e, d) result read h = absurd (cc)
after_load-IsCleared now id connected principal start v (ok (user_id, r), d) result read h =
    let (secret, cleared, same) =
      after_clear-ok now id d (user_id, r) (clear connected r.credential_ref v) result h in
    let (known, owned) = read (user_id, r) refl in
    record {
      user_id = user_id;
      account = r;
      known = known;
      owned = owned;
      gone = λ locator here named. subst (Gone locator) (sym same) (
          subst (λ o. (clear connected o v).0 ≡ ok secret → Gone locator (clear connected o v).1)
            (sym here)
            (λ e. (clear-Gone connected locator (is_empty-false locator named)).at v tt secret e)
            cleared);
    }

-- When the disconnection of an account returns a result, the first lookup has found a committed
-- identity of the caller, and the second the requested account, committed as one of the user of
-- this identity; and if this account named a locator that is not empty, the secret store holds
-- no record under it. Statements may fail, and other sessions may write.
pub disconnect-IsCleared :
    (now id : ℕ) (connected : Bool) (principal : AuthenticatedPrincipal) (d : World Db)
    (v : World Vault) (result : Disconnected)
    → (disconnect now id connected principal d v).0 ≡ ok result
    → IsCleared principal id d (disconnect now id connected principal d v).2
unfolding disconnect
disconnect-IsCleared now id connected principal d v result h =
    after_load-IsCleared now id connected principal d v (load_owned principal id d) result
      (λ loaded e. (load_owned-Loaded principal id d).at d refl loaded e) h
