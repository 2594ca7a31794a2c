-- ===== src/Credentials/Refinement.antt =====
-- The cache against the map of what was put last.
use mathlib.Core.Path.{subst}
use enterprise_communication.Prelude.{
  ℕ, ◌+◌, ◌<◌, ◌≡◌, refl, true, false, Option, none, some, List, [], ◌∷◌, ◌++◌, leb, ltb,
  if◌then◌else◌, length, All, All-append, arith, Bool-cases, inl, inr, Option-cases,
}
use enterprise_communication.Text.{Text, text_eq, text_eq_iff}
use enterprise_communication.Credentials.TokenCache.{
  Key, CachedToken, key_eq, Entries, lookup, remove, evict, get_usable, put, invalidate,
}

-- What was put last for each key and has not been invalidated
abbrev pub Puts : Type 0
Puts = Key → Option CachedToken

pub data Op : Type 0 where
  getting : (key : Key) (now skew : ℕ) → Op
  putting : (key : Key) (entry : CachedToken) → Op
  invalidating : (locator : Text) → Op

-- The answers of the cache, and what it holds at the end
module _ (max_entries : ℕ) where
  abbrev pub step : Op → Entries → Entries
  step (getting key now skew) entries = (get_usable key now skew entries).1
  step (putting key entry) entries = put max_entries key entry entries
  step (invalidating locator) entries = invalidate locator entries

  abbrev pub run : List Op → Entries → Entries
  run [] entries = entries
  run (op ∷ ops) entries = run ops (step op entries)

abbrev pub told : Op → Puts → Puts
told (getting key now skew) puts = puts
told (putting key entry) puts = λ k. if key_eq k key then some entry else puts k
told (invalidating locator) puts = λ k. if text_eq k.locator locator then none else puts k

abbrev pub replay : List Op → Puts → Puts
replay [] puts = puts
replay (op ∷ ops) puts = replay ops (told op puts)

-- Every entry is one that was put last.
abbrev pub Refines : Entries → Puts → Type 0
Refines entries puts = All (λ (e : Key × CachedToken). puts e.0 ≡ some e.1) entries

pub key_eq_sound : (a b : Key) → key_eq a b ≡ true → a ≡ b
key_eq_sound a b h =
    ground (arith, (text_eq_iff a.provider b.provider).0, (text_eq_iff a.locator b.locator).0)

pub key_eq_refl : (a : Key) → key_eq a a ≡ true
key_eq_refl a =
    ground
      (arith, (text_eq_iff a.provider a.provider).1 refl, (text_eq_iff a.locator a.locator).1 refl)

module _ (P : Key × CachedToken → Type 0) where
  remove-All :
      (key : Key) (entries : Entries)
      → All P entries
      → All (λ e. P e × (key_eq e.0 key ≡ false)) (remove key entries)
  unfolding remove
  remove-All key [] a = tt
  remove-All key ((k, e) ∷ entries) a = elim (Bool-cases (key_eq k key)) [
    | inl same ↦ rw same (remove-All key entries a.1)
    | inr other ↦ rw other ((a.0, other), remove-All key entries a.1)
  ]

  evict-All :
      (max_entries : ℕ) (entries : Entries) → All P entries → All P (evict max_entries entries)
  unfolding evict
  evict-All max_entries [] a = tt
  evict-All max_entries (e ∷ entries) a =
      elim (Bool-cases (ltb max_entries (length (e ∷ entries)))) [
        | inl full ↦ rw full (evict-All max_entries entries a.1)
        | inr room ↦ rw room a
      ]

  lookup-All :
      (key : Key) (entries : Entries) (entry : CachedToken)
      → All P entries
      → lookup key entries ≡ some entry
      → P (key, entry)
  unfolding lookup
  lookup-All key [] entry a h = absurd (cc)
  lookup-All key ((k, e) ∷ entries) entry a h = elim (Bool-cases (key_eq k key)) [
    | inl same ↦
        subst P (let p : (k, e) ≡ (key, entry) = ground (arith, key_eq_sound k key) in p) a.0
    | inr other ↦ lookup-All key entries entry a.1 (ground arith)
  ]

  invalidate-All :
      (locator : Text) (entries : Entries)
      → All P entries
      → All (λ e. P e × (text_eq e.0.locator locator ≡ false)) (invalidate locator entries)
  unfolding invalidate
  invalidate-All locator [] a = tt
  invalidate-All locator ((k, e) ∷ entries) a = elim (Bool-cases (text_eq k.locator locator)) [
    | inl same ↦ rw same (invalidate-All locator entries a.1)
    | inr other ↦ rw other ((a.0, other), invalidate-All locator entries a.1)
  ]

All-mono {ℓ} :
    {A : Type ℓ} (P Q : A → Type 0) (xs : List A) → ((x : A) → P x → Q x) → All P xs → All Q xs
All-mono P Q [] f a = tt
All-mono P Q (x ∷ xs) f a = (f x a.0, All-mono P Q xs f a.1)

abbrev Holds : Puts → Key × CachedToken → Type 0
Holds puts e = puts e.0 ≡ some e.1

get_usable-Refines :
    (key : Key) (now skew : ℕ) (entries : Entries) (puts : Puts)
    → Refines entries puts
    → Refines (get_usable key now skew entries).1 puts
unfolding get_usable
get_usable-Refines key now skew entries puts r =
    let kept =
      All-mono _ (Holds puts) (remove key entries) (λ e h. h.0)
        (remove-All (Holds puts) key entries r) in
    elim (Option-cases (lookup key entries)) [
      | inl missing ↦ rw missing r
      | inr (entry, found) ↦ rw found (elim (Bool-cases (leb entry.expires_at (now + skew))) [
        | inl late ↦ rw late kept
        | inr fresh ↦ rw fresh (
            All-append (Holds puts) (remove key entries) ((key, entry) ∷ []) kept
              (lookup-All (Holds puts) key entries entry r found, tt))
      ])
    ]

put-Refines :
    (max_entries : ℕ) (key : Key) (entry : CachedToken) (entries : Entries) (puts : Puts)
    → Refines entries puts
    → Refines (put max_entries key entry entries) (told (putting key entry) puts)
unfolding put
put-Refines max_entries key entry entries puts r =
    evict-All (Holds (told (putting key entry) puts)) max_entries
      (remove key entries ++ (key, entry) ∷ [])
      (All-append (Holds (told (putting key entry) puts)) (remove key entries) ((key, entry) ∷ [])
        (All-mono _ (Holds (told (putting key entry) puts)) (remove key entries) (λ e h. rw h.1 h.0)
          (remove-All (Holds puts) key entries r))
        (rw (key_eq_refl key) refl, tt))

invalidate-Refines :
    (locator : Text) (entries : Entries) (puts : Puts)
    → Refines entries puts
    → Refines (invalidate locator entries) (told (invalidating locator) puts)
invalidate-Refines locator entries puts r =
    All-mono _ (Holds (told (invalidating locator) puts)) (invalidate locator entries)
      (λ e h. rw h.1 h.0) (invalidate-All (Holds puts) locator entries r)

run-Refines :
    (max_entries : ℕ) (ops : List Op) (entries : Entries) (puts : Puts)
    → Refines entries puts
    → Refines (run max_entries ops entries) (replay ops puts)
run-Refines m [] entries puts r = r
run-Refines m (getting key now skew ∷ ops) entries puts r =
    run-Refines m ops _ puts (get_usable-Refines key now skew entries puts r)
run-Refines m (putting key entry ∷ ops) entries puts r =
    run-Refines m ops _ _ (put-Refines m key entry entries puts r)
run-Refines m (invalidating locator ∷ ops) entries puts r =
    run-Refines m ops _ _ (invalidate-Refines locator entries puts r)

-- A token and the entry that it stands in
abbrev pub IsAnswer : Puts → Key → ℕ → Text → Type 0
IsAnswer puts key limit token =
    (entry : CachedToken) × (puts key ≡ some entry)
    × (entry.token ≡ token)
    × (limit < entry.expires_at)

get_usable-IsAnswer :
    (key : Key) (now skew : ℕ) (entries : Entries) (puts : Puts) (token : Text)
    → Refines entries puts
    → (get_usable key now skew entries).0 ≡ some token
    → IsAnswer puts key (now + skew) token
unfolding get_usable
get_usable-IsAnswer key now skew entries puts token r h = elim (Option-cases (lookup key entries)) [
  | inl missing ↦ absurd (ground arith)
  | inr (entry, found) ↦
      (entry, lookup-All (Holds puts) key entries entry r found, ground arith, ground arith)
]

-- A token that the cache answers after any run of gets, puts and invalidations from an empty cache
-- is that of the last put for this key, which no later call has invalidated, and expires after the
-- present time plus the skew.
pub get_usable-run :
    (max_entries : ℕ) (ops : List Op) (key : Key) (now skew : ℕ) (token : Text)
    → (get_usable key now skew (run max_entries ops [])).0 ≡ some token
    → IsAnswer (replay ops (λ _. none)) key (now + skew) token
get_usable-run m ops key now skew token h =
    get_usable-IsAnswer key now skew (run m ops []) (replay ops (λ _. none)) token
      (run-Refines m ops [] (λ _. none) tt) h
