-- ===== src/Credentials/Resolver.antt =====
-- `OAuthCommunicationCredentialResolver` of app/infrastructure/credentials/oauth.py over the store
-- in the process. Another thread or session may act between two calls, as in a storage session. The
-- adapters of the providers and the clock are arguments; both may answer anew each time: the looks
-- into the cache are at the times 0 and 1, the attempts 0 and 1 at 2 and 3.
use enterprise_communication.Prelude.{
  ℕ, ◌+◌, Bool, false, not, Option, none, some, leb, if◌then◌else◌,
}
use enterprise_communication.Text.{Text, text_eq, is_empty, strip}
use enterprise_communication.Errors.{
  Error, Result, ok, err, map_error, credential_unavailable, credential_reauthorization_required,
  unsupported_credential_provider,
}
use enterprise_communication.Storage.UnitOfWork.{
  Exec, ◌>>=◌, ◌>>◌, pure, raise, lift, catch, advance,
}
use enterprise_communication.Credentials.TokenCache.{Key, CachedToken, get_usable, put}
use enterprise_communication.Credentials.Store.{
  Secret, CommunicationCredentialRecord, Vault, hide_backend, get, replace_if_version,
}

pub record RefreshableCredentialResult : Type 0 where
  pub access_token : Text
  pub expires_at : ℕ
  pub replacement_secret_material : Option Secret

abbrev pub Adapter : Type 0
Adapter = Secret → Result RefreshableCredentialResult

-- `_call_adapter`: what is raised that is no credential error becomes one.
abbrev pub adapter_error : Error → Error
adapter_error credential_reauthorization_required = credential_reauthorization_required
adapter_error unsupported_credential_provider = unsupported_credential_provider
adapter_error _ = credential_unavailable

unfoldable pub call_adapter : Adapter → Secret → Result RefreshableCredentialResult
call_adapter adapter secret = map_error adapter_error (adapter secret)

abbrev no_material : Option Secret → Bool
no_material none = false
no_material (some material) = is_empty material

-- `_require_usable_result`, at the time `now`
unfoldable pub require_usable_result :
    (now skew : ℕ) → RefreshableCredentialResult → Result RefreshableCredentialResult
require_usable_result now skew result =
    if is_empty (strip result.access_token)
    then err credential_unavailable
    else if leb result.expires_at (now + skew)
    then err credential_unavailable
    else if no_material result.replacement_secret_material
    then err credential_unavailable
    else ok (record result { access_token = strip result.access_token })

abbrev pub found : Option CommunicationCredentialRecord → Exec Vault CommunicationCredentialRecord
found none = raise credential_unavailable
found (some r) = pure r

-- `_read_record`
unfoldable pub read_record : Text → Exec Vault CommunicationCredentialRecord
unfolding get
read_record locator = do stored ← catch hide_backend (get locator); found stored

-- `self._cache.get_usable` and `self._cache.put`: other threads may have used the cache since.
unfoldable pub cache_get : Key → (now skew : ℕ) → Exec Vault (Option Text)
unfolding get_usable
cache_get key now skew w =
    let w' = advance w in
    let (token, entries) = get_usable key now skew w'.pending.cache in
    (ok token, record w' { pending = record w'.pending { cache = entries } })

unfoldable pub cache_put : ℕ → Key → Text → ℕ → Exec Vault (Unit {0})
unfolding put
cache_put max_entries key token expires_at w =
    let w' = advance w in
    let entry : CachedToken = record { token = token; expires_at = expires_at } in
    (
      ok tt,
      record w' {
        pending = record w'.pending { cache = put max_entries key entry w'.pending.cache };
      },
    )

abbrev pub adapter_of : Option Adapter → Exec Vault Adapter
adapter_of none = raise unsupported_credential_provider
adapter_of (some adapter) = pure adapter

-- Whether the adapter has rotated the secret
abbrev pub rotation : Secret → Option Secret → Option Secret
rotation secret none = none
rotation secret (some material) = if text_eq material secret then none else some material

module _ (max_entries skew : ℕ) (clock : ℕ → ℕ) (adapters : ℕ → Text → Option Adapter)
    (versions : ℕ → Text) where
  abbrev pub remember : Key → RefreshableCredentialResult → Exec Vault (Option Text)
  remember key result = do
    cache_put max_entries key result.access_token result.expires_at
    pure (some result.access_token)

  abbrev pub kept :
      Key
      → RefreshableCredentialResult
      → Option CommunicationCredentialRecord
      → Exec Vault (Option Text)
  kept key result none = pure none
  kept key result (some written) = remember key result

  abbrev pub store_rotation :
      ℕ
      → Key
      → CommunicationCredentialRecord
      → RefreshableCredentialResult
      → Option Secret
      → Exec Vault (Option Text)
  store_rotation i key r result none = remember key result
  store_rotation i key r result (some material) = do
    written ← catch hide_backend (replace_if_version (versions i) key.locator r.version material)
    kept key result written

  -- `_acquire_from_record`, the attempt `i`; `none` means that another writer has won.
  unfoldable pub acquire_from_record :
      ℕ → Key → CommunicationCredentialRecord → Exec Vault (Option Text)
  unfolding call_adapter require_usable_result cache_put replace_if_version
  acquire_from_record i key r =
      if not (text_eq r.provider key.provider) then raise credential_unavailable else (do
        adapter ← adapter_of (adapters i key.provider)
        answer ← lift (call_adapter adapter r.secret_material)
        result ← lift (require_usable_result (clock (i + 2)) skew answer)
        store_rotation i key r result
            (rotation r.secret_material result.replacement_secret_material))

  abbrev pub or_unavailable : Option Text → Exec Vault Text
  or_unavailable none = raise credential_unavailable
  or_unavailable (some token) = pure token

  abbrev pub or_retry : Key → Option Text → Exec Vault Text
  or_retry key (some token) = pure token
  or_retry key none = do
    winner ← read_record key.locator
    retried ← acquire_from_record 1 key winner
    or_unavailable retried

  -- `_acquire_locked`
  unfoldable pub acquire_locked : Key → Exec Vault Text
  unfolding acquire_from_record read_record
  acquire_locked key = do
    r ← read_record key.locator
    token ← acquire_from_record 0 key r
    or_retry key token

  abbrev pub or_acquire : Key → Option Text → Exec Vault Text
  or_acquire key (some token) = pure token
  or_acquire key none = acquire_locked key

  abbrev pub or_look_again : Key → Option Text → Exec Vault Text
  or_look_again key (some token) = pure token
  or_look_again key none = do cached ← cache_get key (clock 1) skew; or_acquire key cached

  -- `_provide_access_token`; the second look is under the lock of the key.
  unfoldable pub provide_access_token : Key → Exec Vault Text
  unfolding acquire_locked cache_get
  provide_access_token key = do cached ← cache_get key (clock 0) skew; or_look_again key cached
