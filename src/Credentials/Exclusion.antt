-- ===== src/Credentials/Exclusion.antt =====
-- Reachable states of `_KeyedLocks` in app/infrastructure/credentials/oauth.py.
use mathlib.Core.Path.{subst}
use enterprise_communication.Prelude.{
  ℕ, zero, suc, ◌≤◌, ◌≡◌, refl, sym, ◌∙◌, Bool, true, false, none, some, List, [], ◌∷◌, ◌++◌,
  if◌then◌else◌, All, arith, inl, inr, Option-cases, ==_iff,
}
use enterprise_communication.Storage.Table.{count_where, count_where-le}
use enterprise_communication.Credentials.TokenCache.{Key, key_eq}
use enterprise_communication.Credentials.Refinement.{key_eq_sound}
use enterprise_communication.Credentials.Locks.{
  Thread, outside, waiting, inside, leaving, Locks, register, unregister, Move, enter, take_lock,
  release, exit, System, Step, pick, no_locks, all_outside, Reach, start, later,
}
use enterprise_communication.Credentials.Holding.{
  uses, is_inside, holds, lock_of, Refers, Inv, All-middle, take_lock-Inv, release-Inv,
}
use enterprise_communication.Credentials.Registering.{registered-Inv, unregistered-Inv}

Move-Inv :
    (before after : List Thread) (s s' : Locks) (t t' : Thread)
    → Move s t s' t'
    → Inv s (before ++ t ∷ after)
    → Inv s' (before ++ t' ∷ after)
unfolding register unregister
Move-Inv before after s _ _ _ (enter key) inv =
    registered-Inv before after s key (s.entries key) refl inv
Move-Inv before after s _ _ _ (take_lock key lock free) inv =
    take_lock-Inv before after s key lock free inv
Move-Inv before after s _ _ _ (release key lock) inv = release-Inv before after s key lock inv
Move-Inv before after s _ _ _ (exit key lock) inv =
    unregistered-Inv before after s key lock (s.entries key) refl inv

Step-Inv : (s s' : System) → Step s s' → Inv s.locks s.threads → Inv s'.locks s'.threads
Step-Inv s _ (pick before after t t' locks e move) inv =
    Move-Inv before after s.locks locks t t' move (subst (Inv s.locks) e inv)

count_where-all_outside :
    (p : Thread → Bool) (n : ℕ) → p outside ≡ false → count_where p (all_outside n) ≡ 0
count_where-all_outside p zero h = refl
count_where-all_outside p (suc n) h = rw h (count_where-all_outside p n h)

Refers-outside : (n : ℕ) → All (Refers no_locks.entries) (all_outside n)
Refers-outside zero = tt
Refers-outside (suc n) = (tt, Refers-outside n)

Reach-Inv : (n : ℕ) (s : System) → Reach n s → Inv s.locks s.threads
Reach-Inv n _ start = record {
  refers = Refers-outside n;
  counted = λ k. sym (count_where-all_outside (uses k) n refl);
  locked = λ l. count_where-all_outside (holds l) n refl;
  known = λ k l h. absurd (cc);
  below = λ l h. absurd (cc);
  positive = λ k h. refl;
  apart = λ k j l h i. absurd (cc);
}
Reach-Inv n s' (later {s} r step) = Step-Inv s s' step (Reach-Inv n s r)

-- The threads inside the block of a key are those that hold the key's lock.
inside_eq :
    (s : Locks) (k : Key) (l : ℕ) (ts : List Thread)
    → ((j : Key) → lock_of (s.entries j) ≡ some l → key_eq j k ≡ true)
    → lock_of (s.entries k) ≡ some l
    → All (Refers s.entries) ts
    → count_where (is_inside k) ts ≡ count_where (holds l) ts
inside_eq s k l [] own e a = omega arith
inside_eq s k l (outside ∷ ts) own e a = inside_eq s k l ts own e a.1
inside_eq s k l (waiting key lock ∷ ts) own e a = inside_eq s k l ts own e a.1
inside_eq s k l (leaving key lock ∷ ts) own e a = inside_eq s k l ts own e a.1
inside_eq s k l (inside key lock ∷ ts) own e a =
    ground (arith, inside_eq s k l ts own e a.1, key_eq_sound key k, ==_iff lock l, own key)

inside-uses : (k : Key) (t : Thread) → is_inside k t ≡ true → uses k t ≡ true
inside-uses k outside h = h
inside-uses k (waiting key lock) h = absurd (cc)
inside-uses k (inside key lock) h = h
inside-uses k (leaving key lock) h = absurd (cc)

-- In every reachable state of the keyed locks, for any number of threads and any interleaving of
-- their steps, at most one thread is inside the block of a key.
pub mutual_exclusion :
    (n : ℕ) (s : System) (k : Key) → Reach n s → count_where (is_inside k) s.threads ≤ 1
mutual_exclusion n s k r =
    let inv = Reach-Inv n s r in
    elim (Option-cases (s.locks.entries k)) [
      | inl missing ↦
          ground
            (arith, count_where-le (uses k) (is_inside k) s.threads (inside-uses k), inv.counted k)
      | inr ((lock, count), found) ↦
          let e : lock_of (s.locks.entries k) ≡ some lock = rw found refl in
          ground (
            arith,
            inside_eq s.locks k lock s.threads (λ j h. inv.apart j k lock h e) e inv.refers,
            inv.locked lock,
          )
    ]

-- In every reachable state, the lock that a thread waits for is locked exactly when a thread is
-- inside the block of its key: a count of one against none.
pub waiting-eq-inside :
    (n : ℕ) (before after : List Thread) (s : Locks) (key : Key) (lock : ℕ)
    → Reach n (record { locks = s; threads = before ++ waiting key lock ∷ after })
    → count_where (is_inside key) (before ++ waiting key lock ∷ after)
      ≡ (if s.held lock then 1 else 0)
waiting-eq-inside n before after s key lock r =
    let inv = Reach-Inv n (record { locks = s; threads = before ++ waiting key lock ∷ after }) r in
    let e = All-middle (Refers s.entries) before after (waiting key lock) inv.refers in
    inside_eq s key lock (before ++ waiting key lock ∷ after) (λ j h. inv.apart j key lock h e) e
      inv.refers
    ∙ inv.locked lock

-- In every reachable state, a key that no thread uses has no entry in the dictionary of locks.
pub unused-entries :
    (n : ℕ) (s : System) (k : Key)
    → Reach n s
    → count_where (uses k) s.threads ≡ 0
    → s.locks.entries k ≡ none
unused-entries n s k r unused = let inv = Reach-Inv n s r in inv.positive k (inv.counted k ∙ unused)
