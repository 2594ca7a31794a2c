-- ===== src/Storage/Table.antt =====
-- A table is the list of its rows. The statements that the repositories build with SQLAlchemy are
-- read by their documented meaning: SELECT … WHERE with `.first()`, a conditional UPDATE with its
-- row count, DELETE … WHERE, INSERT.
use enterprise_communication.Prelude.{
  ℕ, suc, ◌≡◌, refl, Bool, true, Option, none, some, List, [], ◌∷◌, arith, if◌then◌else◌, any,
  false, ◌≤◌, All, Bool-cases, inl, inr, ◌≢◌,
}
use mathlib.Core.Path.{subst}
use mathlib.Core.Option

some-eq {ℓ} : {A : Type ℓ} (a b : A) → some a ≡ some b → a ≡ b
some-eq a b h = cc

module _ {R : Type 0} where
  -- `session.scalars(select(R).where(p)).first()`
  abbrev pub select_first : (R → Bool) → List R → Option R
  select_first p [] = none
  select_first p (r ∷ rows) = let rest = select_first p rows in if p r then some r else rest

  -- `session.scalars(select(R).where(p)).all()`
  abbrev pub select_all : (R → Bool) → List R → List R
  select_all p [] = []
  select_all p (r ∷ rows) = let rest = select_all p rows in if p r then r ∷ rest else rest

  -- the rows after `update(R).where(p).values(...)`
  abbrev pub update_where : (R → Bool) → (R → R) → List R → List R
  update_where p f [] = []
  update_where p f (r ∷ rows) = (if p r then f r else r) ∷ update_where p f rows

  -- its `rowcount`
  abbrev pub count_where : (R → Bool) → List R → ℕ
  count_where p [] = 0
  count_where p (r ∷ rows) = let rest = count_where p rows in if p r then suc rest else rest

  -- the rows after `delete(R).where(p)`
  abbrev pub delete_where : (R → Bool) → List R → List R
  delete_where p [] = []
  delete_where p (r ∷ rows) = let rest = delete_where p rows in if p r then rest else r ∷ rest

  pub select_first-holds :
      (p : R → Bool) (rows : List R) (r : R) → select_first p rows ≡ some r → p r ≡ true
  select_first-holds p [] r h = ground arith
  select_first-holds p (x ∷ rows) r h = ground (arith, select_first-holds p rows r)

  -- A predicate of every row holds of the row that a select finds.
  pub select_first-All {κ} :
      (P : R → Type κ) (p : R → Bool) (rows : List R) (r : R)
      → All P rows
      → select_first p rows ≡ some r
      → P r
  select_first-All P p [] r a h = absurd (cc)
  select_first-All P p (x ∷ rows) r a h = elim (Bool-cases (p x)) [
    | inl e ↦ subst P (some-eq x r (rw e at h)) a.0
    | inr e ↦ select_first-All P p rows r a.1 (rw e at h)
  ]

  pub update_where-All {κ} :
      (P : R → Type κ) (p : R → Bool) (f : R → R) (rows : List R)
      → ((r : R) → p r ≡ true → P r → P (f r))
      → All P rows
      → All P (update_where p f rows)
  update_where-All P p f [] k a = a
  update_where-All P p f (x ∷ rows) k a = elim (Bool-cases (p x)) [
    | inl e ↦ rw e (k x e a.0, update_where-All P p f rows k a.1)
    | inr e ↦ rw e (a.0, update_where-All P p f rows k a.1)
  ]

  pub delete_where-All {κ} :
      (P : R → Type κ) (p : R → Bool) (rows : List R) → All P rows → All P (delete_where p rows)
  delete_where-All P p [] a = a
  delete_where-All P p (x ∷ rows) a = elim (Bool-cases (p x)) [
    | inl e ↦ rw e (delete_where-All P p rows a.1)
    | inr e ↦ rw e (a.0, delete_where-All P p rows a.1)
  ]

  -- An update of no row changes no row.
  pub update_where-none :
      (p : R → Bool) (f : R → R) (rows : List R)
      → count_where p rows ≡ 0
      → update_where p f rows ≡ rows
  update_where-none p f [] h = refl
  update_where-none p f (x ∷ rows) h = ground (arith, update_where-none p f rows)

  -- A row that is found is counted.
  pub count_where-pos :
      (p : R → Bool) (rows : List R) (r : R) → select_first p rows ≡ some r → count_where p rows ≢ 0
  count_where-pos p [] r h = ground arith
  count_where-pos p (x ∷ rows) r h = ground (arith, count_where-pos p rows r)

  -- An update that leaves a test alone moves no row out of a select by that test.
  pub select_first-update_where :
      (q p : R → Bool) (f : R → R) (rows : List R)
      → ((r : R) → q (f r) ≡ q r)
      → select_first q (update_where p f rows)
        ≡ Option.map (λ r. if p r then f r else r) (select_first q rows)
  select_first-update_where q p f [] k = refl
  select_first-update_where q p f (x ∷ rows) k =
      ground (arith, k x, select_first-update_where q p f rows k)

  pub count_where-update_where :
      (q p : R → Bool) (f : R → R) (rows : List R)
      → ((r : R) → q (f r) ≡ q r)
      → count_where q (update_where p f rows) ≡ count_where q rows
  count_where-update_where q p f [] k = refl
  count_where-update_where q p f (x ∷ rows) k =
      ground (arith, k x, count_where-update_where q p f rows k)

  pub count_where-none :
      (q : R → Bool) (rows : List R) → any q rows ≡ false → count_where q rows ≡ 0
  count_where-none q [] h = refl
  count_where-none q (x ∷ rows) h = ground (arith, count_where-none q rows)

  pub select_first-none :
      (q : R → Bool) (rows : List R) → any q rows ≡ false → select_first q rows ≡ none
  select_first-none q [] h = refl
  select_first-none q (x ∷ rows) h = ground (arith, select_first-none q rows)

  pub count_where-le :
      (q p : R → Bool) (rows : List R)
      → ((r : R) → p r ≡ true → q r ≡ true)
      → count_where p rows ≤ count_where q rows
  count_where-le q p [] k = omega arith
  count_where-le q p (x ∷ rows) k = ground (arith, k x, count_where-le q p rows k)

  -- Where `q` picks out one row at most, and `p` implies it, a row of `p` is the one of `q`.
  pub select_first_unique :
      (q p : R → Bool) (rows : List R)
      → ((r : R) → p r ≡ true → q r ≡ true)
      → count_where q rows ≤ 1
      → count_where p rows ≢ 0
      → (r : R) × (select_first q rows ≡ some r) × (p r ≡ true)
  select_first_unique q p [] k one some_row = absurd (some_row refl)
  select_first_unique q p (x ∷ rows) k one some_row = elim (Bool-cases (p x)) [
    | inl e ↦ (x, rw (k x e) refl, e)
    | inr e ↦ elim (Bool-cases (q x)) [
      | inl f ↦ absurd (ground (arith, count_where-le q p rows k))
      | inr f ↦
          let (r, found, holds) =
            select_first_unique q p rows k (ground arith) (λ none_row. some_row (rw e none_row)) in
          (r, rw f found, holds)
    ]
  ]

  -- A row that `p` finds is then the row that `q` finds.
  pub select_first-same :
      (q p : R → Bool) (rows : List R) (r : R)
      → ((x : R) → p x ≡ true → q x ≡ true)
      → count_where q rows ≤ 1
      → select_first p rows ≡ some r
      → select_first q rows ≡ some r
  select_first-same q p [] r k one e = e
  select_first-same q p (x ∷ rows) r k one e = elim (Bool-cases (p x)) [
    | inl f ↦ rw (k x f) (ground arith)
    | inr f ↦ elim (Bool-cases (q x)) [
      | inl g ↦ absurd (ground (arith, count_where-le q p rows k, count_where-pos p rows r))
      | inr g ↦ rw g (select_first-same q p rows r k (ground arith) (ground arith))
    ]
  ]

  -- The row that `q` finds is counted by every test that it passes.
  pub count_where-found :
      (q p : R → Bool) (rows : List R) (r : R)
      → select_first q rows ≡ some r
      → p r ≡ true
      → count_where p rows ≢ 0
  count_where-found q p [] r h e = absurd (cc)
  count_where-found q p (x ∷ rows) r h e = elim (Bool-cases (q x)) [
    | inl f ↦
        let same : x ≡ r = ground arith in
        let holds : p x ≡ true = rw same e in rw holds (λ z. ground arith)
    | inr f ↦
        let later = count_where-found q p rows r (ground arith) e in
        elim (Bool-cases (p x)) [ inl g ↦ rw g (λ z. ground arith) | inr g ↦ rw g later ]
  ]
