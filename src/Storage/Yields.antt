-- ===== src/Storage/Yields.antt =====
-- What holds when a session's action has returned a value: postconditions, with a rule for each
-- way to build an action.
use enterprise_communication.Prelude.{Bool, true, false, if◌then◌else◌, ◌≡◌, refl}
use mathlib.Core.Path.{subst}
use enterprise_communication.Errors.{ok-eq, driver, Error, Result, ok, err, map_error}
use enterprise_communication.Storage.UnitOfWork.{
  Fault, healthy, failed, lost, is_healthy, next_fault, advance, statement, commit, commit_as,
  World, Exec, ◌>>=◌, resume, pure, raise, lift, catch, enter, with_uow, rollback,
}
use enterprise_communication.Storage.Keeps.{Safe, Keeps, Stable, Keeps-enter}

pub record Yields {S A : Type 0} (Pre : World S → Type 0) (m : Exec S A)
    (Post : A → World S → Type 0) : Type 0 where
  pub at : (w : World S) → Pre w → (a : A) → (m w).0 ≡ ok a → Post a (m w).1

pub map_error-ok :
    {A : Type 0} (f : Error → Error) (r : Result A) (a : A) → map_error f r ≡ ok a → r ≡ ok a
map_error-ok f (ok b) a h = h
map_error-ok f (err e) a h = absurd (cc)

module _ {S A : Type 0} {Pre : World S → Type 0} where
  pub Yields-pure :
      (a : A) {Post : A → World S → Type 0}
      → ((w : World S) → Pre w → Post a w)
      → Yields Pre (pure a) Post
  Yields-pure a {Post} k = record { at = λ w h b e. subst (λ x. Post x w) (ok-eq a b e) (k w h) }

  pub Yields-raise : (e : Error) {Post : A → World S → Type 0} → Yields Pre (raise e) Post
  Yields-raise e = record { at = λ w h b p. absurd (cc) }

  pub Yields-catch :
      (f : Error → Error) (m : Exec S A) {Post : A → World S → Type 0}
      → Yields Pre m Post
      → Yields Pre (catch f m) Post
  Yields-catch f m y = record { at = λ w h a e. y.at w h a (map_error-ok f (m w).0 a e) }

module _ {S A B : Type 0} {Post : B → World S → Type 0} where
  resume_yields :
      (Mid : A → World S → Type 0) (f : A → Exec S B)
      → ((a : A) → Yields (Mid a) (f a) Post)
      → (r : Result A) (w : World S) → ((a : A) → r ≡ ok a → Mid a w)
      → (b : B) → (resume f r w).0 ≡ ok b
      → Post b (resume f r w).1
  resume_yields Mid f y (ok a) w mid b e = (y a).at w (mid a refl) b e
  resume_yields Mid f y (err c) w mid b e = absurd (cc)

module _ {S A B : Type 0} {Pre : World S → Type 0} {Post : B → World S → Type 0} where
  pub Yields-bind :
      (Mid : A → World S → Type 0) (m : Exec S A) (f : A → Exec S B)
      → Yields Pre m Mid
      → ((a : A) → Yields (Mid a) (f a) Post)
      → Yields Pre (m >>= f) Post
  Yields-bind Mid m f ym yf = record {
    at = λ w h b e. resume_yields Mid f yf (m w).0 (m w).1 (λ a p. ym.at w h a p) b e;
  }

  -- After a pure step the rest may use that it succeeded.
  pub Yields-bind-lift :
      (r : Result A) (f : A → Exec S B)
      → ((a : A) → r ≡ ok a → Yields Pre (f a) Post)
      → Yields Pre (lift r >>= f) Post
  Yields-bind-lift (ok a) f y = y a refl
  Yields-bind-lift (err e) f y = Yields-raise e

-- A step that keeps the invariant, and of whose value nothing is said.
pub Yields-keep :
    {S A B : Type 0} {R : (S → S) → Type 0} {P : S → Type 0} {Post : B → World S → Type 0}
    (m : Exec S A) (f : A → Exec S B)
    → Keeps R P m
    → ((a : A) → Yields (Safe R P) (f a) Post)
    → Yields (Safe R P) (m >>= f) Post
Yields-keep {R} {P} m f k y =
    Yields-bind (λ _. Safe R P) m f (record { at = λ w h a e. k.at w h }) y

-- Behind the block the session sees the committed state.
pub Yields-with_uow :
    {S A : Type 0} {R : (S → S) → Type 0} {P : S → Type 0} (Post : A → World S → Type 0)
    (m : Exec S A)
    → Stable R P
    → Yields (Safe R P) m (λ a w. Post a (record w { pending = w.durable }))
    → Yields (Safe R P) (with_uow m) Post
unfolding with_uow rollback
Yields-with_uow {R} {P} Post m st y =
    Yields-keep enter _ (Keeps-enter st)
      (λ _. record { at = λ w h a e. y.at w h a (map_error-ok _ (m w).0 a e) })

abbrev pub outcome : {S A : Type 0} → Bool → A → World S → World S → Result A × World S
outcome b a w w' = if b then (ok a, w) else (err driver, w')

pub outcome_yields :
    {S A : Type 0} (Post : A → World S → Type 0) (b : Bool) (a : A) (w w' : World S)
    → Post a w
    → (c : A) → (outcome b a w w').0 ≡ ok c
    → Post c (outcome b a w w').1
outcome_yields Post true a w w' h c e = subst (λ x. Post x w) (ok-eq a c e) h
outcome_yields Post false a w w' h c e = absurd (cc)

-- A statement that has returned was run on the view after the other sessions' writes.
pub Yields-statement :
    {S A : Type 0} {Pre : World S → Type 0} {Post : A → World S → Type 0} (f : S → A × S)
    → ((w : World S)
        → Pre w
        → Post
            (f (advance w).pending).0
            (record (advance w) { pending = (f (advance w).pending).1 }))
    → Yields Pre (statement f) Post
unfolding statement
Yields-statement {Post} f k = record {
  at = λ w h a e.
      let done = f (advance w).pending in
      outcome_yields Post (is_healthy (next_fault w)) done.0
        (record (advance w) { pending = done.1 }) (advance w) (k w h) a e;
}

commit_as_yields :
    {S : Type 0} (Post : Unit {0} → World S → Type 0) (f : Fault) (w : World S)
    → Post tt (record w { durable = w.pending })
    → (a : Unit {0}) → (commit_as f w).0 ≡ ok a
    → Post a (commit_as f w).1
unfolding commit_as
commit_as_yields Post healthy w h a e = h
commit_as_yields Post failed w h a e = absurd (cc)
commit_as_yields Post lost w h a e = absurd (cc)

-- A commit that has returned has made the view durable.
pub Yields-commit :
    {S : Type 0} {Pre : World S → Type 0} {Post : Unit {0} → World S → Type 0}
    → ((w : World S) → Pre w → Post tt (record (advance w) { durable = (advance w).pending }))
    → Yields Pre commit Post
unfolding commit
Yields-commit {Post} k = record {
  at = λ w h a e. commit_as_yields Post (next_fault w) (advance w) (k w h) a e;
}
