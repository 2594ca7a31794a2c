-- ===== src/Credentials/TokenCache.antt =====
-- `_AccessTokenCache` of app/infrastructure/credentials/oauth.py. An `OrderedDict` is the list of
-- its items, the oldest first; the lock makes each method one step.
use enterprise_communication.Prelude.{
  ℕ, ◌+◌, Bool, ◌&&◌, Option, none, some, List, [], ◌∷◌, ◌++◌, leb, ltb, if◌then◌else◌, length,
}
use enterprise_communication.Text.{Text, text_eq}

pub record Key : Type 0 where
  pub provider : Text
  pub locator : Text

-- `_CachedToken`
pub record CachedToken : Type 0 where
  pub token : Text
  pub expires_at : ℕ

abbrev pub key_eq : Key → Key → Bool
key_eq a b = text_eq a.provider b.provider && text_eq a.locator b.locator

abbrev pub Entries : Type 0
Entries = List (Key × CachedToken)

-- `self._entries.get(key)`
unfoldable pub lookup : Key → Entries → Option CachedToken
lookup key [] = none
lookup key ((k, entry) ∷ entries) = if key_eq k key then some entry else lookup key entries

-- `del self._entries[key]`
unfoldable pub remove : Key → Entries → Entries
remove key [] = []
remove key ((k, entry) ∷ entries) =
    let rest = remove key entries in if key_eq k key then rest else (k, entry) ∷ rest

-- The loop that pops the oldest items
unfoldable pub evict : ℕ → Entries → Entries
evict max_entries [] = []
evict max_entries (e ∷ entries) =
    let rest = evict max_entries entries in
    if ltb max_entries (length (e ∷ entries)) then rest else e ∷ entries

-- The token, if it is usable, and the entries behind the call
abbrev usable : ℕ → Key → Entries → Option CachedToken → Option Text × Entries
unfolding remove
usable now key entries none = (none, entries)
usable now key entries (some entry) =
    if leb entry.expires_at now
    then (none, remove key entries)
    else (some entry.token, remove key entries ++ (key, entry) ∷ [])

-- `now` and `skew` are added by the caller's clock arithmetic.
unfoldable pub get_usable : Key → (now skew : ℕ) → Entries → Option Text × Entries
unfolding lookup remove
get_usable key now skew entries = usable (now + skew) key entries (lookup key entries)

unfoldable pub put : ℕ → Key → CachedToken → Entries → Entries
unfolding remove evict
put max_entries key entry entries = evict max_entries (remove key entries ++ (key, entry) ∷ [])

unfoldable pub invalidate : Text → Entries → Entries
invalidate locator [] = []
invalidate locator ((k, entry) ∷ entries) =
    let rest = invalidate locator entries in
    if text_eq k.locator locator then rest else (k, entry) ∷ rest
