-- ===== src/Credentials/Holding.antt =====
-- `_KeyedLocks` of app/infrastructure/credentials/oauth.py: who holds which lock, and the invariant of
-- the dictionary and the threads.

use enterprise_communication.Prelude.{
  ℕ, ◌+◌, ◌<◌, ◌≡◌, Bool, true, false, Option, none, some, List, [], ◌∷◌, ◌++◌, ◌==◌, if◌then◌else◌,
  All, arith, Bool-cases, inl, inr,
}
use enterprise_communication.Storage.Table.{count_where}
use enterprise_communication.Credentials.TokenCache.{Key, key_eq}
use enterprise_communication.Credentials.Locks.{
  Thread, outside, waiting, inside, leaving, Locks, lock_acquired, lock_released,
}

abbrev pub uses : Key → Thread → Bool
uses k outside = false
uses k (waiting key lock) = key_eq key k
uses k (inside key lock) = key_eq key k
uses k (leaving key lock) = key_eq key k

abbrev pub is_inside : Key → Thread → Bool
is_inside k (inside key lock) = key_eq key k
is_inside k _ = false

abbrev pub holds : ℕ → Thread → Bool
holds l (inside key lock) = lock == l
holds l _ = false

abbrev pub lock_of : Option (ℕ × ℕ) → Option ℕ
lock_of none = none
lock_of (some (lock, count)) = some lock

abbrev pub count_of : Option (ℕ × ℕ) → ℕ
count_of none = 0
count_of (some (lock, count)) = count

abbrev pub Refers : (Key → Option (ℕ × ℕ)) → Thread → Type 0
Refers entries outside = Unit
Refers entries (waiting key lock) = lock_of (entries key) ≡ some lock
Refers entries (inside key lock) = lock_of (entries key) ≡ some lock
Refers entries (leaving key lock) = lock_of (entries key) ≡ some lock

abbrev pub one_if : Bool → ℕ
one_if b = if b then 1 else 0

pub record Inv (s : Locks) (threads : List Thread) : Type 0 where
  pub refers : All (Refers s.entries) threads
  pub counted : (k : Key) → count_of (s.entries k) ≡ count_where (uses k) threads
  pub locked : (l : ℕ) → count_where (holds l) threads ≡ one_if (s.held l)
  pub known : (k : Key) (l : ℕ) → lock_of (s.entries k) ≡ some l → l < s.fresh
  pub below : (l : ℕ) → s.held l ≡ true → l < s.fresh
  pub positive : (k : Key) → count_of (s.entries k) ≡ 0 → s.entries k ≡ none
  pub apart :
      (k j : Key) (l : ℕ)
      → lock_of (s.entries k) ≡ some l
      → lock_of (s.entries j) ≡ some l
      → key_eq k j ≡ true

-- A step of one thread in a list of them
pub count_where-replaced :
    (p : Thread → Bool) (before after : List Thread) (t t' : Thread)
    → count_where p (before ++ t' ∷ after) + one_if (p t)
      ≡ count_where p (before ++ t ∷ after) + one_if (p t')
count_where-replaced p [] after t t' = ground arith
count_where-replaced p (x ∷ before) after t t' =
    ground (arith, count_where-replaced p before after t t')

pub All-replaced {κ} :
    {A : Type 0} (P Q : A → Type κ) (before after : List A) (t t' : A)
    → ((x : A) → P x → Q x)
    → Q t'
    → All P (before ++ t ∷ after)
    → All Q (before ++ t' ∷ after)
All-replaced P Q [] [] t t' k q a = (q, tt)
All-replaced P Q [] (x ∷ after) t t' k q a = (q, All-replaced P Q [] after x x k (k x a.1.0) a.1)
All-replaced P Q (x ∷ before) after t t' k q a =
    (k x a.0, All-replaced P Q before after t t' k q a.1)

pub All-middle {κ} :
    {A : Type 0} (P : A → Type κ) (before after : List A) (t : A)
    → All P (before ++ t ∷ after)
    → P t
All-middle P [] after t a = a.0
All-middle P (x ∷ before) after t a = All-middle P before after t a.1

pub All-both {κ ν μ} :
    {A : Type 0} (P : A → Type κ) (Q : A → Type ν) (R : A → Type μ) (xs : List A)
    → ((x : A) → P x → Q x → R x)
    → All P xs
    → All Q xs
    → All R xs
All-both P Q R [] f a b = tt
All-both P Q R (x ∷ xs) f a b = (f x a.0 b.0, All-both P Q R xs f a.1 b.1)

pub count_where-zero :
    (p : Thread → Bool) (ts : List Thread) → count_where p ts ≡ 0 → All (λ t. p t ≡ false) ts
count_where-zero p [] h = tt
count_where-zero p (t ∷ ts) h = elim (Bool-cases (p t)) [
  | inl e ↦ absurd (ground arith)
  | inr e ↦ (e, count_where-zero p ts (rw e at h))
]

module _ (before after : List Thread) where
  pub Refers-kept :
      (entries : Key → Option (ℕ × ℕ)) (t t' : Thread)
      → Refers entries t'
      → All (Refers entries) (before ++ t ∷ after)
      → All (Refers entries) (before ++ t' ∷ after)
  Refers-kept entries t t' =
      All-replaced (Refers entries) (Refers entries) before after t t' (λ x h. h)

  module _ (s : Locks) (key : Key) (lock : ℕ) where
    pub take_lock-Inv :
        s.held lock ≡ false
        → Inv s (before ++ waiting key lock ∷ after)
        → Inv (lock_acquired lock s) (before ++ inside key lock ∷ after)
    unfolding lock_acquired
    take_lock-Inv free inv =
        let mine = All-middle (Refers s.entries) before after (waiting key lock) inv.refers in
        record {
          refers = Refers-kept s.entries (waiting key lock) (inside key lock) mine inv.refers;
          counted = λ k. omega (
            arith,
            count_where-replaced (uses k) before after (waiting key lock) (inside key lock),
            inv.counted k,
          );
          locked = λ l. ground (
            arith,
            count_where-replaced (holds l) before after (waiting key lock) (inside key lock),
            inv.locked l,
          );
          known = inv.known;
          below = λ l h. ground (arith, inv.below l, inv.known key lock mine);
          positive = inv.positive;
          apart = inv.apart;
        }

    pub release-Inv :
        Inv s (before ++ inside key lock ∷ after)
        → Inv (lock_released lock s) (before ++ leaving key lock ∷ after)
    unfolding lock_released
    release-Inv inv =
        let mine = All-middle (Refers s.entries) before after (inside key lock) inv.refers in
        record {
          refers = Refers-kept s.entries (inside key lock) (leaving key lock) mine inv.refers;
          counted = λ k. omega (
            arith,
            count_where-replaced (uses k) before after (inside key lock) (leaving key lock),
            inv.counted k,
          );
          locked = λ l. ground (
            arith,
            count_where-replaced (holds l) before after (inside key lock) (leaving key lock),
            inv.locked l,
          );
          known = inv.known;
          below = λ l h. ground (arith, inv.below l);
          positive = inv.positive;
          apart = inv.apart;
        }
