-- ===== src/Credentials/Answered.antt =====
-- The answers of `_acquire_from_record` of app/infrastructure/credentials/oauth.py.
use mathlib.Core.Path.{subst}
use enterprise_communication.Prelude.{
  ℕ, ◌+◌, ◌<◌, ◌≡◌, refl, ◌∙◌, false, Option, none, some, arith, Bool-cases, inl, inr,
}
use enterprise_communication.Text.{Text, text_eq, text_eq_iff, is_empty, strip}
use enterprise_communication.Errors.{
  ok, credential_unavailable, ok-eq, unsupported_credential_provider,
}
use enterprise_communication.Storage.UnitOfWork.{World, Exec, ◌>>=◌, lift, catch, advance}
use enterprise_communication.Storage.Yields.{
  map_error-ok, Yields, Yields-pure, Yields-raise, Yields-bind, Yields-bind-lift,
}
use enterprise_communication.Credentials.TokenCache.{Key, get_usable}
use enterprise_communication.Credentials.Capacity.{get_usable-put}
use enterprise_communication.Credentials.Store.{
  Secret, CommunicationCredentialRecord, Vault, hide_backend, replace_if_version,
}
use enterprise_communication.Credentials.Resolver.{
  RefreshableCredentialResult, Adapter, call_adapter, adapter_error, require_usable_result,
  cache_put, adapter_of, rotation, remember, kept, store_rotation, acquire_from_record,
}

some-eq : (a b : Text) → some a ≡ some b → a ≡ b
some-eq a b h = cc

-- What a usable answer of an adapter is
record IsUsable (now skew : ℕ) (answer result : RefreshableCredentialResult) : Type 0 where
  token : result.access_token ≡ strip answer.access_token
  some_character : is_empty result.access_token ≡ false
  expiry : result.expires_at ≡ answer.expires_at
  fresh : now + skew < result.expires_at

require_usable_result-IsUsable :
    (now skew : ℕ) (answer result : RefreshableCredentialResult)
    → require_usable_result now skew answer ≡ ok result
    → IsUsable now skew answer result
unfolding require_usable_result
require_usable_result-IsUsable now skew answer result h = ground arith

call_adapter-ok :
    (adapter : Adapter) (secret : Secret) (answer : RefreshableCredentialResult)
    → call_adapter adapter secret ≡ ok answer
    → adapter secret ≡ ok answer
unfolding call_adapter
call_adapter-ok adapter secret answer h = map_error-ok adapter_error (adapter secret) answer h

module _ (max_entries skew : ℕ) (clock : ℕ → ℕ) (adapters : ℕ → Text → Option Adapter)
    (versions : ℕ → Text) where
  -- A token that an adapter has given in an attempt for the secret of a record, and that the cache
  -- now holds
  pub record IsAnswer (key : Key) (attempt : ℕ) (source : CommunicationCredentialRecord)
      (token : Text) (w : World Vault) : Type 0 where
    pub own : source.provider ≡ key.provider
    pub adapter : Adapter
    pub answer : RefreshableCredentialResult
    pub asked : adapters attempt key.provider ≡ some adapter
    pub answered : adapter source.secret_material ≡ ok answer
    pub stripped : token ≡ strip answer.access_token
    pub some_character : is_empty token ≡ false
    pub fresh : clock (attempt + 2) + skew < answer.expires_at
    pub cached : (get_usable key (clock (attempt + 2)) skew w.pending.cache).0 ≡ some token

  abbrev pub Grants : Key → ℕ → CommunicationCredentialRecord → Option Text → World Vault → Type 0
  Grants key i r o w = (token : Text) → o ≡ some token → IsAnswer key i r token w

  abbrev Anything : World Vault → Type 0
  Anything w = Unit {0}

  remember-Grants :
      (i : ℕ) (key : Key) (adapter : Adapter) (r : CommunicationCredentialRecord)
      (answer result : RefreshableCredentialResult)
      → 0 < max_entries
      → r.provider ≡ key.provider
      → adapters i key.provider ≡ some adapter
      → adapter r.secret_material ≡ ok answer
      → IsUsable (clock (i + 2)) skew answer result
      → Yields Anything
          (remember max_entries skew clock adapters versions key result)
          (Grants key i r)
  unfolding cache_put
  remember-Grants i key adapter r answer result room own asked answered u = record {
    at = λ w h o e token f.
        let same : result.access_token ≡ token =
          some-eq result.access_token token (ok-eq (some result.access_token) o e ∙ f) in
        subst
          (λ t.
            IsAnswer key i r t (remember max_entries skew clock adapters versions key result w).1)
          same
          (record {
            own = own;
            adapter = adapter;
            answer = answer;
            asked = asked;
            answered = answered;
            stripped = u.token;
            some_character = u.some_character;
            fresh = omega (arith, u.fresh, u.expiry);
            cached =
                get_usable-put max_entries key
                  (record { token = result.access_token; expires_at = result.expires_at })
                  (clock (i + 2)) skew (advance w).pending.cache room u.fresh;
          });
  }

  kept-Grants :
      (i : ℕ) (key : Key) (r : CommunicationCredentialRecord) (result : RefreshableCredentialResult)
      (o : Option CommunicationCredentialRecord)
      → Yields Anything
          (remember max_entries skew clock adapters versions key result)
          (Grants key i r)
      → Yields Anything
          (kept max_entries skew clock adapters versions key result o)
          (Grants key i r)
  kept-Grants i key r result none y = Yields-pure none (λ w h token f. absurd (cc))
  kept-Grants i key r result (some written) y = y

  store_rotation-Grants :
      (i : ℕ) (key : Key) (r : CommunicationCredentialRecord) (result : RefreshableCredentialResult)
      (o : Option Secret)
      → Yields Anything
          (remember max_entries skew clock adapters versions key result)
          (Grants key i r)
      → Yields Anything
          (store_rotation max_entries skew clock adapters versions i key r result o)
          (Grants key i r)
  store_rotation-Grants i key r result none y = y
  store_rotation-Grants i key r result (some material) y =
      Yields-bind (λ _. Anything)
        (catch hide_backend (replace_if_version (versions i) key.locator r.version material)) _
        (record { at = λ w h a e. tt }) (λ written. kept-Grants i key r result written y)

  abbrev then_ask : ℕ → Key → CommunicationCredentialRecord → Adapter → Exec Vault (Option Text)
  then_ask i key r adapter = do
    answer ← lift (call_adapter adapter r.secret_material)
    result ← lift (require_usable_result (clock (i + 2)) skew answer)
    store_rotation max_entries skew clock adapters versions i key r result
        (rotation r.secret_material result.replacement_secret_material)

  adapter_of-Grants :
      (i : ℕ) (key : Key) (r : CommunicationCredentialRecord) (o : Option Adapter)
      → 0 < max_entries
      → r.provider ≡ key.provider
      → adapters i key.provider ≡ o
      → Yields Anything (adapter_of o >>= then_ask i key r) (Grants key i r)
  adapter_of-Grants i key r none room own asked = Yields-raise unsupported_credential_provider
  adapter_of-Grants i key r (some adapter) room own asked =
      Yields-bind-lift (call_adapter adapter r.secret_material) _ (λ answer answered.
        Yields-bind-lift (require_usable_result (clock (i + 2)) skew answer) _ (λ result usable.
          store_rotation-Grants i key r result _ (
            remember-Grants i key adapter r answer result room own asked
              (call_adapter-ok adapter r.secret_material answer answered)
              (require_usable_result-IsUsable (clock (i + 2)) skew answer result usable))))

  -- What an attempt with a record returns
  pub acquire_from_record-Grants :
      (i : ℕ) (key : Key) (r : CommunicationCredentialRecord)
      → 0 < max_entries
      → Yields Anything
          (acquire_from_record max_entries skew clock adapters versions i key r)
          (Grants key i r)
  unfolding acquire_from_record
  acquire_from_record-Grants i key r room = elim (Bool-cases (text_eq r.provider key.provider)) [
    | inl mine ↦ rw mine (
        adapter_of-Grants i key r (adapters i key.provider) room
          ((text_eq_iff r.provider key.provider).0 mine) refl)
    | inr other ↦ rw other (Yields-raise credential_unavailable)
  ]
