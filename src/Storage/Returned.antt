-- ===== src/Storage/Returned.antt =====
-- The two halves of an action that has returned, and rows that a select has found.
use mathlib.Core.List.{Mem, mem-cons_self, mem-cons_of_mem}
use mathlib.Core.Path.{subst}
use enterprise_communication.Prelude.{
  ◌≡◌, refl, ap, ◌∙◌, true, false, if◌then◌else◌, Bool, some, List, [], ◌∷◌, Bool-cases, inl, inr,
}
use enterprise_communication.Errors.{Result, ok, err, persistence}
use enterprise_communication.Storage.Table.{select_first}
use enterprise_communication.Storage.UnitOfWork.{
  is_healthy, next_fault, World, Exec, ◌>>=◌, resume, advance, query, rollback, enter, with_uow,
}
use enterprise_communication.Storage.Yields.{Yields, Yields-bind, Yields-statement, map_error-ok}

module _ {S A B : Type 0} where
  resume_returned :
      (f : A → Exec S B) (r : Result A) (w : World S) (b : B)
      → (resume f r w).0 ≡ ok b
      → (a : A) × (r ≡ ok a) × ((f a w).0 ≡ ok b) × (resume f r w ≡ f a w)
  resume_returned f (ok a) w b h = (a, refl, h, refl)
  resume_returned f (err e) w b h = absurd (cc)

  -- Both steps of a chain that has returned have returned.
  pub returned :
      (m : Exec S A) (f : A → Exec S B) (w : World S) (b : B)
      → ((m >>= f) w).0 ≡ ok b
      → (a : A) × ((m w).0 ≡ ok a) × ((f a (m w).1).0 ≡ ok b) × ((m >>= f) w ≡ f a (m w).1)
  returned m f w b h = resume_returned f (m w).0 (m w).1 b h

module _ {S A B C : Type 0} where
  resume_assoc :
      (f : A → Exec S B) (g : B → Exec S C) (r : Result A) (w : World S)
      → resume g (resume f r w).0 (resume f r w).1 ≡ resume (λ a. f a >>= g) r w
  resume_assoc f g (ok a) w = refl
  resume_assoc f g (err e) w = refl

  pub >>=-assoc :
      (m : Exec S A) (f : A → Exec S B) (g : B → Exec S C) (w : World S)
      → ((m >>= f) >>= g) w ≡ (m >>= λ a. f a >>= g) w
  >>=-assoc m f g w = resume_assoc f g (m w).0 (m w).1

-- A row that a select finds is a row of the table.
pub select_first-Mem :
    {R : Type 0} (p : R → Bool) (rows : List R) (r : R) → select_first p rows ≡ some r → Mem r rows
select_first-Mem p [] r h = absurd (cc)
select_first-Mem p (x ∷ rows) r h = elim (Bool-cases (p x)) [
  | inl e ↦
      let same : x ≡ r = let found : some x ≡ some r = rw e at h in cc in
      subst (λ y. Mem y (x ∷ rows)) same mem-cons_self
  | inr e ↦ mem-cons_of_mem x (select_first-Mem p rows r (rw e at h))
]

-- A query that has returned answers from the view after the other sessions' writes.
pub Yields-query :
    {S A : Type 0} {Pre : World S → Type 0} {Post : A → World S → Type 0} (f : S → A)
    → ((w : World S) → Pre w → Post (f (advance w).pending) (advance w))
    → Yields Pre (query f) Post
unfolding query
Yields-query f k = Yields-statement (λ s. (f s, s)) k

-- The world of a session that has been opened
abbrev pub opened : {S : Type 0} → World S → World S
opened w = record (advance w) { pending = (advance w).durable }

-- The world behind a block
abbrev pub closed : {S : Type 0} → World S → World S
closed w = record w { pending = w.durable }

abbrev entered : {S : Type 0} → Bool → World S → Result (Unit {0}) × World S
entered b w = if b then (ok tt, opened w) else (err persistence, opened w)

entered-opened : {S : Type 0} (b : Bool) (w : World S) → (entered b w).1 ≡ opened w
entered-opened true w = refl
entered-opened false w = refl

enter-opened :
    {S : Type 0} (start : World S) → Yields (λ w. w ≡ start) enter (λ _ w. w ≡ opened start)
unfolding enter
enter-opened start = record {
  at = λ w same a e. entered-opened (is_healthy (next_fault w)) w ∙ ap opened same;
}

-- A block from a known world runs from the world that its session sees.
pub Yields-block :
    {S A : Type 0} (start : World S) (Post : A → World S → Type 0) (m : Exec S A)
    → Yields (λ w. w ≡ opened start) m (λ a w. Post a (closed w))
    → Yields (λ w. w ≡ start) (with_uow m) Post
unfolding with_uow rollback
Yields-block start Post m y =
    Yields-bind (λ _ w. w ≡ opened start) enter _ (enter-opened start)
      (λ _. record { at = λ w h a e. y.at w h a (map_error-ok _ (m w).0 a e) })
