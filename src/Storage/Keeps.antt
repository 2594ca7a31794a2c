-- ===== src/Storage/Keeps.antt =====
-- Rely and guarantee over sessions: `R` is what is assumed of the writes of other sessions, `Keeps`
-- that a property of the tables outlives an action, with a rule for each way to build one.
use enterprise_communication.Prelude.{
  ◌≡◌, refl, List, [], ◌∷◌, Bool, true, false, if◌then◌else◌, All,
}
use enterprise_communication.Errors.{Error, driver, persistence, Result, ok, err}
use enterprise_communication.Storage.UnitOfWork.{
  Fault, healthy, failed, lost, Turn, World, Exec, ◌>>=◌, resume, pure, raise, lift, catch, advance,
  is_healthy, next_fault, next_turn, query, later_turns, statement, rollback, commit_as, commit,
  enter, with_uow,
}

module _ {S : Type 0} (R : (S → S) → Type 0) where
  pub record Safe (P : S → Type 0) (w : World S) : Type 0 where
    pub pending : P w.pending
    pub durable : P w.durable
    pub rely : All (λ (t : Turn S). R t.others) w.turns

  pub record Keeps (P : S → Type 0) {A : Type 0} (m : Exec S A) : Type 0 where
    pub at : (w : World S) → Safe P w → Safe P (m w).1

  -- The assumption on the others, of an idle turn too, and that it keeps `P`.
  pub record Stable (P : S → Type 0) : Type 0 where
    pub keeps : (g : S → S) → R g → (s : S) → P s → P (g s)

  pub rely-later :
      (ts : List (Turn S))
      → All (λ (t : Turn S). R t.others) ts
      → All (λ (t : Turn S). R t.others) (later_turns ts)
  rely-later [] r = r
  rely-later (t ∷ ts) r = r.1

  pub rely-next :
      {P : S → Type 0}
      → Stable P
      → (ts : List (Turn S)) → All (λ (t : Turn S). R t.others) ts
      → (s : S) → P s
      → P ((next_turn ts).others s)
  rely-next st [] r s h = h
  rely-next st (t ∷ ts) r s h = st.keeps t.others r.0 s h

  module _ {P : S → Type 0} where
    pub Safe-advance : Stable P → (w : World S) → Safe P w → Safe P (advance w)
    Safe-advance st w h = record {
      pending = rely-next st w.turns h.rely w.pending h.pending;
      durable = rely-next st w.turns h.rely w.durable h.durable;
      rely = rely-later w.turns h.rely;
    }

    Safe-rollback : (w : World S) → Safe P w → Safe P (rollback w).1
    unfolding rollback
    Safe-rollback w h = record { pending = h.durable; durable = h.durable; rely = h.rely }

    Safe-commit_as : (f : Fault) (w : World S) → Safe P w → Safe P (commit_as f w).1
    unfolding commit_as
    Safe-commit_as healthy w h = record { pending = h.pending; durable = h.pending; rely = h.rely }
    Safe-commit_as failed w h = Safe-rollback w h
    Safe-commit_as lost w h = record { pending = h.pending; durable = h.pending; rely = h.rely }

    Safe-if :
        {C : Type 0} (b : Bool) (p q : C × World S)
        → Safe P p.1
        → Safe P q.1
        → Safe P (if b then p else q).1
    Safe-if true p q hp hq = hp
    Safe-if false p q hp hq = hq

module _ {S : Type 0} {R : (S → S) → Type 0} {P : S → Type 0} where
  module _ {A : Type 0} where
    pub Keeps-pure : (a : A) → Keeps R P (pure a)
    Keeps-pure a = record { at = λ w h. h }

    pub Keeps-raise : (e : Error) → Keeps R P (raise {A = A} e)
    Keeps-raise e = record { at = λ w h. h }

    pub Keeps-lift : (r : Result A) → Keeps R P (lift r)
    Keeps-lift r = record { at = λ w h. h }

    pub Keeps-catch : (f : Error → Error) (m : Exec S A) → Keeps R P m → Keeps R P (catch f m)
    Keeps-catch f m k = record { at = k.at }

    pub Keeps-if :
        (b : Bool) (m n : Exec S A) → Keeps R P m → Keeps R P n → Keeps R P (if b then m else n)
    Keeps-if true m n km kn = km
    Keeps-if false m n km kn = kn

    pub Keeps-statement :
        Stable R P → (f : S → A × S) → ((s : S) → P s → P (f s).1) → Keeps R P (statement f)
    unfolding statement
    Keeps-statement st f k = record {
      at = λ w h.
          let h' = Safe-advance R st w h in
          let done = f (advance w).pending in
          Safe-if R (is_healthy (next_fault w)) (ok done.0, record (advance w) { pending = done.1 })
            (err driver, advance w)
            (record {
              pending = k (advance w).pending h'.pending;
              durable = h'.durable;
              rely = h'.rely;
            })
            h';
    }

    -- A statement that only reads.
    pub Keeps-query : Stable R P → (f : S → A) → Keeps R P (query f)
    unfolding query
    Keeps-query st f = Keeps-statement st (λ s. (f s, s)) (λ s h. h)

  pub Keeps-commit : Stable R P → Keeps R P commit
  unfolding commit
  Keeps-commit st = record {
    at = λ w h. Safe-commit_as R (next_fault w) (advance w) (Safe-advance R st w h);
  }

  pub Keeps-rollback : Keeps R P rollback
  Keeps-rollback = record { at = Safe-rollback R }

  module _ {A B : Type 0} where
    resume-Keeps :
        (f : A → Exec S B)
        → ((a : A) → Keeps R P (f a))
        → (r : Result A) (w : World S) → Safe R P w
        → Safe R P (resume f r w).1
    resume-Keeps f kf (ok a) w h = (kf a).at w h
    resume-Keeps f kf (err e) w h = h

    pub Keeps-bind :
        (m : Exec S A) (f : A → Exec S B)
        → Keeps R P m
        → ((a : A) → Keeps R P (f a))
        → Keeps R P (m >>= f)
    Keeps-bind m f km kf = record { at = λ w h. resume-Keeps f kf (m w).0 (m w).1 (km.at w h) }

    -- After a pure step the rest may use that it succeeded.
    pub Keeps-bind-lift :
        (r : Result A) (f : A → Exec S B)
        → ((a : A) → r ≡ ok a → Keeps R P (f a))
        → Keeps R P (lift r >>= f)
    Keeps-bind-lift (ok a) f kf = kf a refl
    Keeps-bind-lift (err e) f kf = Keeps-raise e

  pub Keeps-enter : Stable R P → Keeps R P enter
  unfolding enter
  Keeps-enter st = record {
    at = λ w h.
        let h' = Safe-advance R st w h in
        let fresh = record (advance w) { pending = (advance w).durable } in
        let safe : Safe R P fresh = record {
          pending = h'.durable;
          durable = h'.durable;
          rely = h'.rely;
        } in
        Safe-if R (is_healthy (next_fault w)) (ok tt, fresh) (err persistence, fresh) safe safe;
  }

  pub Keeps-with_uow :
      {A : Type 0} → Stable R P → (m : Exec S A) → Keeps R P m → Keeps R P (with_uow m)
  unfolding with_uow
  Keeps-with_uow st m k =
      Keeps-bind enter _ (Keeps-enter st)
        (λ _. record { at = λ w h. Safe-rollback R (m w).1 (k.at w h) })

pub ruleset keeps_rules = (
  Keeps-pure, Keeps-raise, Keeps-lift, Keeps-catch, Keeps-if, Keeps-query, Keeps-commit,
  Keeps-rollback, Keeps-bind, Keeps-with_uow,
)
