-- ===== src/CredentialTests.antt =====
-- Concrete runs of the keyed locks and of the resolver of credentials.
use enterprise_communication.Prelude.{
  ℕ, ◌+◌, ◌≡◌, ◌≤◌, refl, Option, none, some, [], ◌∷◌, arith, if◌then◌else◌,
}
use enterprise_communication.Text.{Text, text, strip}
use enterprise_communication.Errors.{ok}
use enterprise_communication.Storage.Table.{count_where}
use enterprise_communication.Storage.UnitOfWork.{World, query}
use enterprise_communication.Credentials.TokenCache.{Key, put}
use enterprise_communication.Credentials.Locks.{
  outside, waiting, inside, Locks, register, lock_acquired, enter, take_lock, pick, no_locks, Reach,
  start, later,
}
use enterprise_communication.Credentials.Holding.{is_inside}
use enterprise_communication.Credentials.Exclusion.{
  mutual_exclusion, waiting-eq-inside, unused-entries,
}
use enterprise_communication.Credentials.Store.{Vault, get, require_credential_ref}
use enterprise_communication.Credentials.Resolver.{
  Adapter, acquire_locked, acquire_from_record, read_record, call_adapter, require_usable_result,
  cache_put,
}
use enterprise_communication.Credentials.Granted.{IsGranted, acquire_locked-IsGranted}

abbrev mailbox : Key
mailbox = record { provider = text "gmail"; locator = text "oauth-1" }

-- Two threads ask for the lock of the mailbox, and the first takes it.
abbrev one_entered : Locks
one_entered = (register mailbox no_locks).0

abbrev two_entered : Locks
two_entered = (register mailbox one_entered).0

abbrev one_inside : Locks
one_inside = lock_acquired 0 two_entered

contended :
    Reach 2 (record { locks = one_inside; threads = inside mailbox 0 ∷ waiting mailbox 0 ∷ [] })
unfolding register lock_acquired
contended =
    later
      (later
        (later start
          (pick [] (outside ∷ []) outside (waiting mailbox 0) one_entered refl (enter mailbox)))
        (pick (waiting mailbox 0 ∷ []) [] outside (waiting mailbox 0) two_entered refl
          (enter mailbox)))
      (pick [] (waiting mailbox 0 ∷ []) (waiting mailbox 0) (inside mailbox 0) one_inside refl
        (take_lock mailbox 0 refl))

mutual_exclusion_example :
    count_where (is_inside mailbox) (inside mailbox 0 ∷ waiting mailbox 0 ∷ []) ≤ 1
mutual_exclusion_example =
    mutual_exclusion 2
      (record { locks = one_inside; threads = inside mailbox 0 ∷ waiting mailbox 0 ∷ [] }) mailbox
      contended

waiting-eq-inside_example :
    count_where (is_inside mailbox) (inside mailbox 0 ∷ waiting mailbox 0 ∷ [])
    ≡ (if one_inside.held 0 then 1 else 0)
waiting-eq-inside_example =
    waiting-eq-inside 2 (inside mailbox 0 ∷ []) [] one_inside mailbox 0 contended

abbrev other_mailbox : Key
other_mailbox = record { provider = text "gmail"; locator = text "oauth-2" }

unused-entries_example : one_inside.entries other_mailbox ≡ none
unused-entries_example =
    unused-entries 2
      (record { locks = one_inside; threads = inside mailbox 0 ∷ waiting mailbox 0 ∷ [] })
      other_mailbox contended refl

abbrev grants_token : Adapter
grants_token secret =
    ok (record { access_token = text "token"; expires_at = 90; replacement_secret_material = none })

abbrev only_adapter : ℕ → Text → Option Adapter
only_adapter i provider = some grants_token

-- The store holds the secret of the mailbox, and the cache is empty.
abbrev stored : World Vault
stored =
    let v : Vault = record {
      records =
          record {
            credential_ref = text "oauth-1";
            provider = text "gmail";
            version = text "v";
            secret_material = 7 ∷ [];
          }
          ∷ [];
      cache = [];
    } in
    record { pending = v; durable = v; turns = [] }

token_returned :
    (acquire_locked 8 5 (λ i. 10 + i) only_adapter (λ i. text "v") mailbox stored).0
    ≡ ok (text "token")
unfolding acquire_locked acquire_from_record read_record get require_credential_ref call_adapter
    require_usable_result cache_put put query strip
token_returned = refl

acquire_locked-IsGranted_example :
    IsGranted 8 5
      (λ i. 10 + i)
      only_adapter
      (λ i. text "v")
      mailbox
      stored
      (text "token")
      (acquire_locked 8 5 (λ i. 10 + i) only_adapter (λ i. text "v") mailbox stored).1
acquire_locked-IsGranted_example =
    acquire_locked-IsGranted 8 5 (λ i. 10 + i) only_adapter (λ i. text "v") mailbox stored
      (text "token") (omega arith) token_returned
