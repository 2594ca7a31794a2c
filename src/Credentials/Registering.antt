-- ===== src/Credentials/Registering.antt =====
-- The two blocks under the guard of `_KeyedLocks` in app/infrastructure/credentials/oauth.py.

use enterprise_communication.Prelude.{
  ℕ, ◌+◌, ◌-◌, ◌≡◌, refl, sym, ap, ◌∙◌, true, false, Option, none, some, List, ◌∷◌, ◌++◌, leb,
  arith, Bool-cases, inl, inr,
}
use enterprise_communication.Storage.Table.{count_where}
use enterprise_communication.Credentials.TokenCache.{Key, key_eq}
use enterprise_communication.Credentials.Refinement.{key_eq_sound, key_eq_refl}
use enterprise_communication.Credentials.Locks.{
  Thread, outside, waiting, inside, leaving, Locks, set_entry, registered, unregistered,
}
use enterprise_communication.Credentials.Holding.{
  uses, holds, lock_of, Refers, Inv, count_where-replaced, All-replaced, All-middle, All-both,
  count_where-zero, Refers-kept,
}

Refers-mono :
    (entries entries' : Key → Option (ℕ × ℕ))
    → ((k : Key) (l : ℕ) → lock_of (entries k) ≡ some l → lock_of (entries' k) ≡ some l)
    → (t : Thread) → Refers entries t
    → Refers entries' t
Refers-mono entries entries' f outside r = tt
Refers-mono entries entries' f (waiting key lock) r = f key lock r
Refers-mono entries entries' f (inside key lock) r = f key lock r
Refers-mono entries entries' f (leaving key lock) r = f key lock r

same_entry :
    (entries : Key → Option (ℕ × ℕ)) (key k : Key) (o : Option (ℕ × ℕ))
    → entries key ≡ o
    → key_eq key k ≡ true
    → entries k ≡ o
same_entry entries key k o e h = ap entries (sym (key_eq_sound key k h)) ∙ e

key_eq_sym : (a b : Key) → key_eq a b ≡ false → key_eq b a ≡ false
key_eq_sym a b h = elim (Bool-cases (key_eq b a)) [
  | inl e ↦ absurd (ground (arith, key_eq_sound b a e, key_eq_refl a))
  | inr e ↦ e
]

Refers-dropped :
    (entries : Key → Option (ℕ × ℕ)) (key : Key) (t : Thread)
    → Refers entries t
    → uses key t ≡ false
    → Refers (set_entry key none entries) t
Refers-dropped entries key outside r h = tt
Refers-dropped entries key (waiting k lock) r h = rw (key_eq_sym k key h) r
Refers-dropped entries key (inside k lock) r h = rw (key_eq_sym k key h) r
Refers-dropped entries key (leaving k lock) r h = rw (key_eq_sym k key h) r

module _ (before after : List Thread) (s : Locks) (key : Key) where
  no_entry : (lock : ℕ) → s.entries key ≡ none → ¬ (lock_of (s.entries key) ≡ some lock)
  no_entry lock e h = ground arith

  pub registered-Inv :
      (o : Option (ℕ × ℕ))
      → s.entries key ≡ o
      → Inv s (before ++ outside ∷ after)
      → let (s', lock) = registered key o s in Inv s' (before ++ waiting key lock ∷ after)
  registered-Inv none e inv = record {
    refers =
        All-replaced (Refers s.entries) (Refers (set_entry key (some (s.fresh, 1)) s.entries))
          before after outside (waiting key s.fresh)
          (Refers-mono s.entries (set_entry key (some (s.fresh, 1)) s.entries)
            (λ k l h. ground (arith, same_entry s.entries key k none e)))
          (rw (key_eq_refl key) refl) inv.refers;
    counted = λ k. ground (
      arith,
      count_where-replaced (uses k) before after outside (waiting key s.fresh),
      inv.counted k,
      same_entry s.entries key k none e,
    );
    locked = λ l. ground (
      arith,
      count_where-replaced (holds l) before after outside (waiting key s.fresh),
      inv.locked l,
      inv.below l,
    );
    known = λ k l h. ground (arith, inv.known k l);
    below = λ l h. ground (arith, inv.below l);
    positive = λ k h. ground (arith, inv.positive k);
    apart = λ k j l h i. ground (
      arith,
      inv.apart k j l,
      inv.known k l,
      inv.known j l,
      key_eq_sound key k,
      key_eq_sound key j,
      key_eq_refl key,
    );
  }
  registered-Inv (some (lock, count)) e inv = record {
    refers =
        All-replaced (Refers s.entries) (Refers (set_entry key (some (lock, count + 1)) s.entries))
          before after outside (waiting key lock)
          (Refers-mono s.entries (set_entry key (some (lock, count + 1)) s.entries)
            (λ k l h. ground (arith, same_entry s.entries key k (some (lock, count)) e)))
          (rw (key_eq_refl key) refl) inv.refers;
    counted = λ k. ground (
      arith,
      count_where-replaced (uses k) before after outside (waiting key lock),
      inv.counted k,
      same_entry s.entries key k (some (lock, count)) e,
    );
    locked = λ l. ground (
      arith,
      count_where-replaced (holds l) before after outside (waiting key lock),
      inv.locked l,
    );
    known =
        λ k l h. ground (arith, inv.known k l, same_entry s.entries key k (some (lock, count)) e);
    below = inv.below;
    positive = λ k h. ground (arith, inv.positive k);
    apart = λ k j l h i. ground (
      arith,
      inv.apart k j l,
      inv.apart key j l,
      inv.apart k key l,
      key_eq_sound key k,
      key_eq_sound key j,
      key_eq_refl key,
    );
  }

  -- What is left when the last thread that uses the key goes
  dropped-Inv :
      (lock current count : ℕ)
      → s.entries key ≡ some (current, count)
      → leb count 1 ≡ true
      → Inv s (before ++ leaving key lock ∷ after)
      → Inv (record s { entries = set_entry key none s.entries }) (before ++ outside ∷ after)
  dropped-Inv lock current count e last inv =
      let replaced =
        λ (k : Key). count_where-replaced (uses k) before after (leaving key lock) outside in
      let gone : count_where (uses key) (before ++ outside ∷ after) ≡ 0 =
        ground (arith, replaced key, inv.counted key, key_eq_refl key) in
      record {
        refers =
            All-both (Refers s.entries) (λ t. uses key t ≡ false)
              (Refers (set_entry key none s.entries)) (before ++ outside ∷ after)
              (Refers-dropped s.entries key)
              (Refers-kept before after s.entries (leaving key lock) outside tt inv.refers)
              (count_where-zero (uses key) (before ++ outside ∷ after) gone);
        counted = λ k. ground (
          arith,
          replaced k,
          inv.counted k,
          same_entry s.entries key k (some (current, count)) e,
        );
        locked = λ l. ground (
          arith,
          count_where-replaced (holds l) before after (leaving key lock) outside,
          inv.locked l,
        );
        known = λ k l h. ground (arith, inv.known k l);
        below = inv.below;
        positive = λ k h. ground (arith, inv.positive k);
        apart = λ k j l h i. ground (arith, inv.apart k j l);
      }

  pub unregistered-Inv :
      (lock : ℕ) (o : Option (ℕ × ℕ))
      → s.entries key ≡ o
      → Inv s (before ++ leaving key lock ∷ after)
      → Inv (unregistered key o s) (before ++ outside ∷ after)
  unregistered-Inv lock none e inv =
      absurd
        (no_entry lock e (All-middle (Refers s.entries) before after (leaving key lock) inv.refers))
  unregistered-Inv lock (some (current, count)) e inv = elim (Bool-cases (leb count 1)) [
    | inl last ↦ rw last (dropped-Inv lock current count e last inv)
    | inr more ↦ rw more (record {
      refers =
          All-replaced (Refers s.entries)
            (Refers (set_entry key (some (current, count - 1)) s.entries)) before after
            (leaving key lock) outside
            (Refers-mono s.entries (set_entry key (some (current, count - 1)) s.entries)
              (λ k l h. ground (arith, same_entry s.entries key k (some (current, count)) e)))
            tt inv.refers;
      counted = λ k. ground (
        arith,
        count_where-replaced (uses k) before after (leaving key lock) outside,
        inv.counted k,
        same_entry s.entries key k (some (current, count)) e,
      );
      locked = λ l. ground (
        arith,
        count_where-replaced (holds l) before after (leaving key lock) outside,
        inv.locked l,
      );
      known = λ k l h.
          ground (arith, inv.known k l, same_entry s.entries key k (some (current, count)) e);
      below = inv.below;
      positive = λ k h. ground (arith, inv.positive k);
      apart = λ k j l h i. ground (
        arith,
        inv.apart k j l,
        inv.apart key j l,
        inv.apart k key l,
        key_eq_sound key k,
        key_eq_sound key j,
        key_eq_refl key,
      );
    })
  ]
