-- ===== src/Credentials/Capacity.antt =====
-- The size of the cache, and what it still knows right behind a `put`.

use enterprise_communication.Prelude.{
  ℕ, ◌+◌, ◌≤◌, ◌<◌, ◌≡◌, refl, ap, ◌∙◌, false, some, List, [], ◌∷◌, ◌++◌, leb, ltb, length, All,
  arith, length-append, Bool-cases, inl, inr, Option-cases,
}
use enterprise_communication.Text.{Text}
use enterprise_communication.Credentials.TokenCache.{
  Key, CachedToken, key_eq, Entries, lookup, remove, evict, get_usable, put, invalidate,
}
use enterprise_communication.Credentials.Refinement.{
  Op, getting, putting, invalidating, run, key_eq_refl,
}

evict-le : (m : ℕ) (entries : Entries) → length (evict m entries) ≤ m
unfolding evict
evict-le m [] = omega arith
evict-le m (e ∷ entries) = ground (arith, evict-le m entries)

length-remove : (key : Key) (entries : Entries) → length (remove key entries) ≤ length entries
unfolding remove
length-remove key [] = omega arith
length-remove key ((k, e) ∷ entries) = ground (arith, length-remove key entries)

length-remove_found :
    (key : Key) (entries : Entries) (entry : CachedToken)
    → lookup key entries ≡ some entry
    → length (remove key entries) < length entries
unfolding remove lookup
length-remove_found key [] entry h = absurd (cc)
length-remove_found key ((k, e) ∷ entries) entry h = elim (Bool-cases (key_eq k key)) [
  | inl same ↦ rw same (omega (arith, length-remove key entries))
  | inr other ↦ rw other (omega (arith, length-remove_found key entries entry (ground arith)))
]

length-get_usable :
    (key : Key) (now skew : ℕ) (entries : Entries)
    → length (get_usable key now skew entries).1 ≤ length entries
unfolding get_usable
length-get_usable key now skew entries = elim (Option-cases (lookup key entries)) [
  | inl missing ↦ rw missing (omega arith)
  | inr (entry, found) ↦ rw found (elim (Bool-cases (leb entry.expires_at (now + skew))) [
    | inl late ↦ rw late (length-remove key entries)
    | inr fresh ↦ rw fresh (
        omega (
          arith,
          length-append (remove key entries) ((key, entry) ∷ []),
          length-remove_found key entries entry found,
        ))
  ])
]

length-invalidate :
    (locator : Text) (entries : Entries) → length (invalidate locator entries) ≤ length entries
unfolding invalidate
length-invalidate locator [] = omega arith
length-invalidate locator ((k, e) ∷ entries) = ground (arith, length-invalidate locator entries)

-- No run of gets, puts and invalidations takes a cache that is within its capacity over it.
pub run_bounded :
    (max_entries : ℕ) (ops : List Op) (entries : Entries)
    → length entries ≤ max_entries
    → length (run max_entries ops entries) ≤ max_entries
unfolding put
run_bounded m [] entries h = h
run_bounded m (getting key now skew ∷ ops) entries h =
    run_bounded m ops _ (omega (arith, length-get_usable key now skew entries, h))
run_bounded m (putting key entry ∷ ops) entries h =
    run_bounded m ops _ (evict-le m (remove key entries ++ (key, entry) ∷ []))
run_bounded m (invalidating locator ∷ ops) entries h =
    run_bounded m ops _ (omega (arith, length-invalidate locator entries, h))

not_over : (m : ℕ) → 0 < m → ltb m 1 ≡ false
not_over m h = ground arith

-- The youngest entry is the last to go.
evict-newest :
    (m : ℕ) (entries : Entries) (e : Key × CachedToken)
    → 0 < m
    → (older : Entries) × (evict m (entries ++ e ∷ []) ≡ older ++ e ∷ [])
      × ((P : Key × CachedToken → Type 0) → All P entries → All P older)
unfolding evict
evict-newest m [] e some_room = ([], rw (not_over m some_room) refl, λ P a. a)
evict-newest m (x ∷ entries) e some_room =
    elim (Bool-cases (ltb m (length (x ∷ entries ++ e ∷ [])))) [
      | inl full ↦
          let (older, same, sub) = evict-newest m entries e some_room in
          (older, rw full same, λ P a. sub P a.1)
      | inr room ↦ (x ∷ entries, rw room refl, λ P a. a)
    ]

lookup-newest :
    (key : Key) (entry : CachedToken) (older : Entries)
    → All (λ (e : Key × CachedToken). key_eq e.0 key ≡ false) older
    → lookup key (older ++ (key, entry) ∷ []) ≡ some entry
unfolding lookup
lookup-newest key entry [] a = rw (key_eq_refl key) refl
lookup-newest key entry ((k, e) ∷ older) a = rw a.0 (lookup-newest key entry older a.1)

apart :
    (key : Key) (entries : Entries)
    → All (λ (e : Key × CachedToken). key_eq e.0 key ≡ false) (remove key entries)
unfolding remove
apart key [] = tt
apart key ((k, e) ∷ entries) = elim (Bool-cases (key_eq k key)) [
  | inl same ↦ rw same (apart key entries)
  | inr other ↦ rw other (other, apart key entries)
]

-- Right behind a put into a cache with room for an entry, get_usable answers the token, when it
-- expires after the present time plus the skew.
pub get_usable-put :
    (max_entries : ℕ) (key : Key) (entry : CachedToken) (now skew : ℕ) (entries : Entries)
    → 0 < max_entries
    → now + skew < entry.expires_at
    → (get_usable key now skew (put max_entries key entry entries)).0 ≡ some entry.token
unfolding get_usable put
get_usable-put m key entry now skew entries some_room fresh =
    let (older, same, sub) = evict-newest m (remove key entries) (key, entry) some_room in
    let found : lookup key (evict m (remove key entries ++ (key, entry) ∷ [])) ≡ some entry =
      ap (lookup key) same ∙ lookup-newest key entry older (sub _ (apart key entries)) in
    let in_time : leb entry.expires_at (now + skew) ≡ false = ground arith in
    rw (found, in_time) refl
