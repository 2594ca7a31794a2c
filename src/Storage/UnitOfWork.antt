-- ===== src/Storage/UnitOfWork.antt =====
-- app/infrastructure/storage/unit_of_work.py: a session over the committed state `S`, as a state
-- and exception monad. A statement or a commit may fail, and other sessions commit in between:
-- `turns` says what happens at each call in turn, so a theorem over every list holds whatever the
-- database driver and the other sessions do.
use enterprise_communication.Prelude.{Bool, true, false, List, [], ◌∷◌, if◌then◌else◌}
use enterprise_communication.Errors.{Error, driver, persistence, Result, ok, err, map_error}

-- How one call to the driver ends. `lost` is an error that is reported although the call was
-- done: a commit whose confirmation never arrived.
pub data Fault : Type 0 where
  healthy failed lost : Fault

-- What happens at one call to the driver: `others` is what the transactions of other sessions
-- have committed since the call before, which a session under READ COMMITTED then sees.
pub record Turn (S : Type 0) : Type 0 where
  pub fault : Fault
  pub others : S → S

-- `pending` is what the session's transaction sees, `durable` what is committed.
pub record World (S : Type 0) : Type 0 where
  pub pending : S
  pub durable : S
  pub turns : List (Turn S)

abbrev pub Exec : Type 0 → Type 0 → Type 0
Exec S A = World S → Result A × World S

abbrev pub resume : {S A B : Type 0} → (A → Exec S B) → Result A → Exec S B
resume f (ok a) w = f a w
resume f (err e) w = (err e, w)

infixl 5 ◌>>=◌ ◌>>◌
abbrev pub ◌>>=◌ : {S A B : Type 0} → Exec S A → (A → Exec S B) → Exec S B
◌>>=◌ m f w = let (r, w') = m w in resume f r w'

abbrev pub ◌>>◌ : {S A B : Type 0} → Exec S A → Exec S B → Exec S B
m >> k = m >>= λ _. k

module _ {S A : Type 0} where
  abbrev pub pure : A → Exec S A
  pure a w = (ok a, w)

  abbrev pub raise : Error → Exec S A
  raise e w = (err e, w)

  abbrev pub lift : Result A → Exec S A
  lift r w = (r, w)

  -- `except SQLAlchemyError: raise PersistenceError` round a call
  abbrev pub catch : (Error → Error) → Exec S A → Exec S A
  catch f m w = let (r, w') = m w in (map_error f r, w')

abbrev pub is_healthy : Fault → Bool
is_healthy healthy = true
is_healthy _ = false

-- The next turn; once the list is used up nothing fails and nobody else writes.
abbrev pub next_turn : {S : Type 0} → List (Turn S) → Turn S
next_turn [] = record { fault = healthy; others = λ s. s }
next_turn (t ∷ ts) = t

abbrev pub later_turns : {S : Type 0} → List (Turn S) → List (Turn S)
later_turns [] = []
later_turns (t ∷ ts) = ts

-- The world after the other transactions of a turn have committed.
abbrev pub advance : {S : Type 0} → World S → World S
advance w =
    let t = next_turn w.turns in
    record {
      pending = t.others w.pending;
      durable = t.others w.durable;
      turns = later_turns w.turns;
    }

abbrev pub next_fault : {S : Type 0} → World S → Fault
next_fault w = (next_turn w.turns).fault

-- One SQL statement: it reads or writes the session's view, or raises `SQLAlchemyError`.
unfoldable pub statement : {S A : Type 0} → (S → A × S) → Exec S A
statement f w =
    let w' = advance w in
    let (a, s) = f w'.pending in
    if is_healthy (next_fault w) then (ok a, record w' { pending = s }) else (err driver, w')

-- One SELECT.
unfoldable pub query : {S A : Type 0} → (S → A) → Exec S A
unfolding statement
query f = statement (λ s. (f s, s))

-- `rollback`: the driver's own errors are swallowed there.
unfoldable pub rollback : {S : Type 0} → Exec S (Unit {0})
rollback w = (ok tt, record w { pending = w.durable })

-- `commit`
unfoldable pub commit_as : {S : Type 0} → Fault → Exec S (Unit {0})
unfolding rollback
commit_as healthy w = (ok tt, record w { durable = w.pending })
commit_as failed w = (err persistence, (rollback w).1)
commit_as lost w = (err persistence, record w { durable = w.pending })

unfoldable pub commit : {S : Type 0} → Exec S (Unit {0})
unfolding commit_as
commit w = commit_as (next_fault w) (advance w)

-- `__enter__`: a new session sees the committed state.
unfoldable pub enter : {S : Type 0} → Exec S (Unit {0})
enter w =
    let w' = advance w in
    let w'' = record w' { pending = w'.durable } in
    if is_healthy (next_fault w) then (ok tt, w'') else (err persistence, w'')

-- `__exit__`: what was not committed is rolled back, and a driver's error becomes a
-- `PersistenceError`.
abbrev hide_driver : Error → Error
hide_driver driver = persistence
hide_driver e = e

unfoldable pub leave : {S A : Type 0} → Result A → Exec S A
unfolding rollback
leave r w = (map_error hide_driver r, (rollback w).1)

-- `with factory() as uow: body`
unfoldable pub with_uow : {S A : Type 0} → Exec S A → Exec S A
unfolding enter leave
with_uow body = do enter; λ w. let (r, w') = body w in leave r w'
