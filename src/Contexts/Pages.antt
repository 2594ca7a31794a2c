-- ===== src/Contexts/Pages.antt =====
-- `list_owned` of app/infrastructure/storage/repositories/business_context.py: a page of contexts.
use mathlib.Core.List.{Perm, perm_middle}
use mathlib.Core.List.Perm
use mathlib.Core.Path.{subst}
use enterprise_communication.Prelude.{
  ℕ, zero, suc, ◌≤◌, ◌≡◌, ◌⊎◌, refl, sym, ap, Bool, true, false, not, List, [], ◌∷◌, ◌++◌, take,
  drop, min, length, All, arith, Bool-cases, inl, inr,
}
use enterprise_communication.Storage.Table.{select_all}
use enterprise_communication.Contexts.Model.{BusinessContext}
use enterprise_communication.Contexts.Repository.{
  ContextFilter, is_listed, comes_first, insert_ordered, newest_first, page_of,
}
use enterprise_communication.Contexts.Listed.{
  Listed, InOrder, comes_first-Before, is_listed-Listed, Listed-is_listed,
}

-- No context has one behind it that is newer, or of the same time with a greater id.
abbrev pub Ordered : List BusinessContext → Type 0
Ordered [] = Unit
Ordered (c ∷ []) = Unit
Ordered (c ∷ d ∷ rows) = (comes_first d c ≡ false) × Ordered (d ∷ rows)

comes_first_asym : (c d : BusinessContext) → comes_first d c ≡ true → comes_first c d ≡ false
comes_first_asym c d h = ground arith

insert_ordered-Ordered :
    (c : BusinessContext) (rows : List BusinessContext)
    → Ordered rows
    → Ordered (insert_ordered c rows)
unfolding insert_ordered
insert_ordered-Ordered c [] o = tt
insert_ordered-Ordered c (d ∷ []) o = elim (Bool-cases (comes_first d c)) [
  | inl first ↦ rw first (comes_first_asym c d first, tt)
  | inr behind ↦ rw behind (behind, tt)
]
insert_ordered-Ordered c (d ∷ e ∷ rows) o = elim (Bool-cases (comes_first d c)) [
  | inr behind ↦ rw behind (behind, o)
  | inl first ↦
      let rest = insert_ordered-Ordered c (e ∷ rows) o.1 in
      rw first (elim (Bool-cases (comes_first e c)) [
        | inl later ↦ rw later (o.0, rw later at rest)
        | inr behind ↦ rw behind (comes_first_asym c d first, rw behind at rest)
      ])
]

newest_first-Ordered : (rows : List BusinessContext) → Ordered (newest_first rows)
unfolding newest_first
newest_first-Ordered [] = tt
newest_first-Ordered (c ∷ rows) =
    insert_ordered-Ordered c (newest_first rows) (newest_first-Ordered rows)

module _ (P : BusinessContext → Type 0) where
  insert_ordered-All :
      (c : BusinessContext) (rows : List BusinessContext)
      → P c
      → All P rows
      → All P (insert_ordered c rows)
  unfolding insert_ordered
  insert_ordered-All c [] p a = (p, tt)
  insert_ordered-All c (d ∷ rows) p a = elim (Bool-cases (comes_first d c)) [
    | inl first ↦ rw first (a.0, insert_ordered-All c rows p a.1)
    | inr behind ↦ rw behind (p, a)
  ]

  newest_first-All : (rows : List BusinessContext) → All P rows → All P (newest_first rows)
  unfolding newest_first
  newest_first-All [] a = tt
  newest_first-All (c ∷ rows) a =
      insert_ordered-All c (newest_first rows) a.0 (newest_first-All rows a.1)

module _ (p : BusinessContext → Bool) where
  select_all-All : (rows : List BusinessContext) → All (λ c. p c ≡ true) (select_all p rows)
  select_all-All [] = tt
  select_all-All (c ∷ rows) = elim (Bool-cases (p c)) [
    | inl e ↦ rw e (e, select_all-All rows)
    | inr e ↦ rw e (select_all-All rows)
  ]

  -- The rows that pass a test, and behind them the others
  select_all-perm :
      (rows : List BusinessContext)
      → Perm rows (select_all p rows ++ select_all (λ c. not (p c)) rows)
  select_all-perm [] = Perm.refl []
  select_all-perm (c ∷ rows) = elim (Bool-cases (p c)) [
    | inl e ↦ rw e (Perm.cons c (select_all-perm rows))
    | inr e ↦ rw e (
        Perm.trans (Perm.cons c (select_all-perm rows))
          (Perm.symm (perm_middle (select_all p rows) (select_all (λ c. not (p c)) rows))))
  ]

insert_ordered-perm :
    (c : BusinessContext) (rows : List BusinessContext) → Perm (c ∷ rows) (insert_ordered c rows)
unfolding insert_ordered
insert_ordered-perm c [] = Perm.refl (c ∷ [])
insert_ordered-perm c (d ∷ rows) = elim (Bool-cases (comes_first d c)) [
  | inl first ↦
      rw first (Perm.trans (Perm.swap d c rows) (Perm.cons d (insert_ordered-perm c rows)))
  | inr behind ↦ rw behind (Perm.refl (c ∷ d ∷ rows))
]

newest_first-perm : (rows : List BusinessContext) → Perm rows (newest_first rows)
unfolding newest_first
newest_first-perm [] = Perm.refl []
newest_first-perm (c ∷ rows) =
    Perm.trans (Perm.cons c (newest_first-perm rows)) (insert_ordered-perm c (newest_first rows))

take-drop : (n : ℕ) (rows : List BusinessContext) → take n rows ++ drop n rows ≡ rows
take-drop zero rows = refl
take-drop (suc n) [] = refl
take-drop (suc n) (c ∷ rows) = ap (λ r. c ∷ r) (take-drop n rows)

length-take-le : (n : ℕ) (rows : List BusinessContext) → length (take n rows) ≤ n
length-take-le zero rows = omega arith
length-take-le (suc n) [] = omega arith
length-take-le (suc n) (c ∷ rows) = omega (arith, length-take-le n rows)

-- A part is cut as long as asked for, or nothing is behind it.
length-take :
    (n : ℕ) (rows : List BusinessContext) → (length (take n rows) ≡ n) ⊎ (drop n rows ≡ [])
length-take zero rows = inl refl
length-take (suc n) [] = inr refl
length-take (suc n) (c ∷ rows) = elim (length-take n rows) [
  | inl e ↦ inl (ap suc e)
  | inr e ↦ inr e
]

Ordered-InOrder : (rows : List BusinessContext) → Ordered rows → InOrder rows
Ordered-InOrder [] o = tt
Ordered-InOrder (c ∷ []) o = tt
Ordered-InOrder (c ∷ d ∷ rows) o = (comes_first-Before c d o.0, Ordered-InOrder (d ∷ rows) o.1)

module _ {P Q : BusinessContext → Type 0} where
  All-map :
      ((c : BusinessContext) → P c → Q c) → (rows : List BusinessContext) → All P rows → All Q rows
  All-map k [] a = tt
  All-map k (c ∷ rows) a = (k c a.0, All-map k rows a.1)

-- The rows of a page, those that it leaves out before and behind it, and those that are not listed
pub record IsPage (limit offset user_id : ℕ) (f : ContextFilter) (rows page : List BusinessContext)
    : Type 0 where
  pub front : List BusinessContext
  pub behind : List BusinessContext
  pub unlisted : List BusinessContext
  pub all_rows : Perm rows ((front ++ (page ++ behind)) ++ unlisted)
  pub members : All (Listed user_id f) (front ++ (page ++ behind))
  pub others : All (λ c. ¬ Listed user_id f c) unlisted
  pub order : InOrder (front ++ (page ++ behind))
  pub skipped : length front ≤ offset
  pub started : (length front ≡ offset) ⊎ (page ++ behind ≡ [])
  pub size : (length page ≤ limit) × (length page ≤ 100)
  pub filled : (length page ≡ limit) ⊎ (length page ≡ 100) ⊎ (behind ≡ [])

filled_at :
    (limit n : ℕ) (behind : List BusinessContext)
    → (n ≡ min limit 100) ⊎ (behind ≡ [])
    → (n ≡ limit) ⊎ (n ≡ 100) ⊎ (behind ≡ [])
filled_at limit n behind (inl e) = ground arith
filled_at limit n behind (inr e) = inr (inr e)

-- The page that the statement of list_owned selects is such a page.
pub page_of-IsPage :
    (limit offset user_id : ℕ) (f : ContextFilter) (rows : List BusinessContext)
    → IsPage limit offset user_id f rows (page_of limit offset user_id f rows)
unfolding page_of
page_of-IsPage limit offset user_id f rows =
    let keep : BusinessContext → Bool = is_listed user_id f in
    let skip : BusinessContext → Bool = λ c. not (keep c) in
    let listed : List BusinessContext = newest_first (select_all keep rows) in
    let rest : List BusinessContext = drop offset listed in
    let n : ℕ = min limit 100 in
    let whole : listed ≡ take offset listed ++ (take n rest ++ drop n rest) =
      sym (rw (take-drop n rest) (take-drop offset listed)) in
    record {
      front = take offset listed;
      behind = drop n rest;
      unlisted = select_all skip rows;
      all_rows =
          subst (λ l. Perm rows (l ++ select_all skip rows)) whole
            (Perm.trans (select_all-perm keep rows) (
              Perm.append_right (select_all skip rows) (newest_first-perm (select_all keep rows))));
      members = subst (All (Listed user_id f)) whole (
          newest_first-All (Listed user_id f) (select_all keep rows) (
            All-map (is_listed-Listed user_id f) (select_all keep rows)
              (select_all-All keep rows)));
      others =
          All-map (λ c e l. let kept = Listed-is_listed user_id f c l in ground arith)
            (select_all skip rows) (select_all-All skip rows);
      order =
          subst InOrder whole
            (Ordered-InOrder listed (newest_first-Ordered (select_all keep rows)));
      skipped = length-take-le offset listed;
      started = elim (length-take offset listed) [
        | inl e ↦ inl e
        | inr e ↦ inr (rw (take-drop n rest) e)
      ];
      size = (omega (arith, length-take-le n rest), omega (arith, length-take-le n rest));
      filled = filled_at limit (length (take n rest)) (drop n rest) (length-take n rest);
    }
