-- ===== src/Credentials/Store.antt =====
-- app/infrastructure/credentials/memory.py: the store of opaque credentials in the process, with
-- the token cache that listens to its changes, and the checks of validation.py and locators.py. The
-- lock makes each method one step. `secrets.token_hex` is the argument `version`.
use enterprise_communication.Prelude.{
  ℕ, Bool, true, false, ◌&&◌, ◌||◌, Option, none, some, List, [], ◌∷◌, leb, ◌==◌, any, all,
  if◌then◌else◌, length,
}
use enterprise_communication.Text.{Text, text, text_eq, is_empty, strip}
use enterprise_communication.Text.Parts.{starts_with}
use enterprise_communication.Errors.{
  Error, Result, ok, err, driver, credential_unavailable, credential_conflict,
  unsupported_credential_provider, ◌>>=◌ as ◌then◌,
}
use enterprise_communication.Storage.Table.{select_first, update_where, delete_where}
use enterprise_communication.Storage.UnitOfWork.{
  Exec, ◌>>=◌, ◌>>◌, pure, raise, lift, statement, query,
}
use enterprise_communication.Credentials.TokenCache.{Entries, invalidate}

abbrev pub Secret : Type 0
Secret = List ℕ

pub record CommunicationCredentialRecord : Type 0 where
  pub credential_ref : Text
  pub provider : Text
  pub version : Text
  pub secret_material : Secret

-- The store's records, and the cache of the resolver that is registered with it
pub record Vault : Type 0 where
  pub records : List CommunicationCredentialRecord
  pub cache : Entries

abbrev is_letter : ℕ → Bool
is_letter c = leb 65 c && leb c 90 || leb 97 c && leb c 122

abbrev is_ref_character : ℕ → Bool
is_ref_character c = is_letter c || leb 48 c && leb c 57 || c == 45

-- `CREDENTIAL_REF_PATTERN.fullmatch`
abbrev matches_ref : Text → Bool
matches_ref [] = false
matches_ref (c ∷ s) = is_letter c && leb (length s) 62 && all is_ref_character s

unfoldable pub require_credential_ref : Text → Result Text
require_credential_ref ref = if matches_ref ref then ok ref else err credential_unavailable

unfoldable pub is_valid_credential_ref : Text → Bool
is_valid_credential_ref ref = matches_ref ref

-- `require_supported_provider`; `lower` is `str.lower`. Both supported slugs match the pattern.
unfoldable pub require_supported_provider : (Text → Text) → Text → Result Text
require_supported_provider lower provider =
    let slug = lower (strip provider) in
    if text_eq slug (text "gmail") || text_eq slug (text "microsoft_graph")
    then ok slug
    else err unsupported_credential_provider

unfoldable pub require_secret_material : Secret → Result Secret
require_secret_material material =
    if is_empty material then err credential_unavailable else ok material

unfoldable pub is_oauth_credential_locator : Text → Bool
unfolding is_valid_credential_ref
is_oauth_credential_locator ref = starts_with (text "oauth-") ref && is_valid_credential_ref ref

abbrev pub has_ref : Text → CommunicationCredentialRecord → Bool
has_ref locator r = text_eq r.credential_ref locator

-- A call of the store: what a backend raises that is no credential error becomes one.
abbrev pub hide_backend : Error → Error
hide_backend driver = credential_unavailable
hide_backend e = e

unfoldable pub get : Text → Exec Vault (Option CommunicationCredentialRecord)
unfolding require_credential_ref
get ref = do
  locator ← lift (require_credential_ref ref)
  query (λ (v : Vault). select_first (has_ref locator) v.records)

-- The block under the lock, and the listeners' calls behind it
unfoldable pub insert_record : CommunicationCredentialRecord → Exec Vault Bool
insert_record r = statement (λ (v : Vault).
    if any (has_ref r.credential_ref) v.records
    then (false, v)
    else (true, record { records = r ∷ v.records; cache = invalidate r.credential_ref v.cache }))

abbrev pub created : CommunicationCredentialRecord → Bool → Exec Vault CommunicationCredentialRecord
created r true = pure r
created r false = raise credential_conflict

module _ (lower : Text → Text) where
  unfoldable pub create :
      (version ref provider : Text) → Secret → Exec Vault CommunicationCredentialRecord
  unfolding insert_record require_credential_ref require_supported_provider require_secret_material
  create version ref provider secret = do
    locator ← lift (require_credential_ref ref)
    slug ← lift (require_supported_provider lower provider)
    material ← lift (require_secret_material secret)
    let r : CommunicationCredentialRecord = record {
      credential_ref = locator;
      provider = slug;
      version = version;
      secret_material = material;
    }
    done ← insert_record r
    created r done

abbrev pub is_version : Text → Text → CommunicationCredentialRecord → Bool
is_version locator version r = has_ref locator r && text_eq r.version version

abbrev pub rotated : Text → Secret → CommunicationCredentialRecord → CommunicationCredentialRecord
rotated version material r = record r { version = version; secret_material = material }

-- A stored record whose version is the expected one is replaced; else nothing is written.
abbrev pub replaced :
    (version locator expected : Text)
    → Secret
    → Vault
    → Option CommunicationCredentialRecord
    → Option CommunicationCredentialRecord × Vault
replaced version locator expected material v none = (none, v)
replaced version locator expected material v (some current) =
    if text_eq current.version expected
    then (
      some (rotated version material current),
      record {
        records = update_where (has_ref locator) (rotated version material) v.records;
        cache = invalidate locator v.cache;
      },
    )
    else (none, v)

unfoldable pub replace_if_version :
    (version ref expected : Text) → Secret → Exec Vault (Option CommunicationCredentialRecord)
unfolding require_credential_ref require_secret_material
replace_if_version version ref expected secret = do
  locator ← lift (require_credential_ref ref)
  lift (if is_empty expected then err credential_unavailable else ok tt)
  material ← lift (require_secret_material secret)
  statement (λ (v : Vault).
      replaced version locator expected material v (select_first (has_ref locator) v.records))

unfoldable pub delete : Text → Exec Vault (Unit {0})
unfolding require_credential_ref
delete ref = do
  locator ← lift (require_credential_ref ref)
  statement (λ (v : Vault). (
    tt,
    record {
      records = delete_where (has_ref locator) v.records;
      cache = invalidate locator v.cache;
    },
  ))
