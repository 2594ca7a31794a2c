-- ===== src/Contexts/Listing.antt =====
-- `list_owned` of app/infrastructure/storage/repositories/business_context.py: what it returns.
use mathlib.Core.Path.{subst}
use enterprise_communication.Prelude.{
  ℕ, ◌≡◌, refl, sym, true, List, [], ◌∷◌, ltb, arith, Bool-cases, inl, inr,
}
use enterprise_communication.Errors.{Result, ok, err, persistence}
use enterprise_communication.Storage.Db.{Db}
use enterprise_communication.Storage.UnitOfWork.{World, advance, lift, query, ◌>>=◌}
use enterprise_communication.Storage.Yields.{Yields, Yields-pure, Yields-bind, map_error-ok}
use enterprise_communication.Storage.Returned.{Yields-query}
use enterprise_communication.Contexts.Model.{BusinessContext, validate}
use enterprise_communication.Contexts.Repository.{
  ContextFilter, to_domain, all_to_domain, page_of, list_owned,
}
use enterprise_communication.Contexts.Pages.{IsPage, page_of-IsPage}

-- Each context is what its row validates to.
abbrev pub Rehydrated : List BusinessContext → List BusinessContext → Type 0
Rehydrated [] [] = Unit
Rehydrated (row ∷ rows) (c ∷ cs) = (validate true row ≡ ok c) × Rehydrated rows cs
Rehydrated _ _ = ⊥

-- What is returned, and the world behind
pub data IsListing (user_id limit offset : ℕ) (f : ContextFilter) (start : World Db)
    : List BusinessContext → World Db → Type 0 where
  nothing : limit ≡ 0 → IsListing user_id limit offset f start [] start
  listing :
      (page contexts : List BusinessContext)
      → IsPage limit offset user_id f (advance start).pending.contexts page
      → Rehydrated page contexts
      → IsListing user_id limit offset f start contexts (advance start)

all_ok :
    (row : BusinessContext) (rows cs : List BusinessContext)
    → all_to_domain (row ∷ rows) ≡ ok cs
    → (c : BusinessContext) × (ds : List BusinessContext) × (to_domain row ≡ ok c)
      × (all_to_domain rows ≡ ok ds)
      × (cs ≡ c ∷ ds)
unfolding all_to_domain
all_ok row rows cs h = split (to_domain row) (all_to_domain rows) h
  where
    split :
        (r : Result BusinessContext) (q : Result (List BusinessContext))
        → elim r [ err e ↦ err e | ok c ↦ elim q [ err e ↦ err e | ok ds ↦ ok (c ∷ ds) ] ] ≡ ok cs
        → (c : BusinessContext) × (ds : List BusinessContext) × (r ≡ ok c)
          × (q ≡ ok ds)
          × (cs ≡ c ∷ ds)
    split (err e) q g = absurd (cc)
    split (ok c) (err e) g = absurd (cc)
    split (ok c) (ok ds) g = (c, ds, refl, refl, cc)

all_to_domain-Rehydrated :
    (rows cs : List BusinessContext) → all_to_domain rows ≡ ok cs → Rehydrated rows cs
unfolding all_to_domain to_domain
all_to_domain-Rehydrated [] [] h = tt
all_to_domain-Rehydrated [] (c ∷ cs) h = absurd (cc)
all_to_domain-Rehydrated (row ∷ rows) cs h =
    let (c, ds, first, rest, same) = all_ok row rows cs h in
    subst (Rehydrated (row ∷ rows)) (sym same) (
      map_error-ok (λ e. persistence) (validate true row) c first,
      all_to_domain-Rehydrated rows ds rest,
    )

module _ (user_id limit offset : ℕ) (f : ContextFilter) (start : World Db) where
  read_page :
      Yields
        (λ w. w ≡ start)
        ((do
          rows ← query (λ (s : Db). page_of limit offset user_id f s.contexts)
          lift (all_to_domain rows)))
        (IsListing user_id limit offset f start)
  read_page =
      Yields-bind
        (λ rows w.
          (w ≡ advance start)
          × (rows ≡ page_of limit offset user_id f (advance start).pending.contexts))
        _ _
        (Yields-query (λ (s : Db). page_of limit offset user_id f s.contexts)
          (λ w same. rw same (refl, refl)))
        (λ rows. record {
          at = λ w h contexts e.
              let page : List BusinessContext =
                page_of limit offset user_id f (advance start).pending.contexts in
              subst (IsListing user_id limit offset f start contexts) (sym h.0) (
                listing page contexts
                  (page_of-IsPage limit offset user_id f (advance start).pending.contexts)
                  (subst (λ l. Rehydrated l contexts) h.1
                    (all_to_domain-Rehydrated rows contexts e)));
        })

  -- When list_owned returns contexts, they are what the rows of a page validate to, one for each
  -- and in the same order, or none for a limit of 0. The page is the part behind the first `offset`
  -- rows of the list of those stored rows of the owner that have the status, the type and the
  -- reference asked for, newest first and of the same time by falling id. It has no more rows than
  -- the limit and than 100, and it has the smaller of the two unless it reaches the end of that
  -- list. Statements may fail, and other sessions may write.
  pub list_owned-IsListing :
      (contexts : List BusinessContext)
      → (list_owned user_id limit offset f start).0 ≡ ok contexts
      → IsListing user_id limit offset f start contexts (list_owned user_id limit offset f start).1
  unfolding list_owned
  list_owned-IsListing contexts h =
      (elim (Bool-cases (ltb limit 1))
          as (λ _.
            Yields (λ w. w ≡ start) (list_owned user_id limit offset f)
              (IsListing user_id limit offset f start)) [
                | inl e ↦ rw e (Yields-pure [] (λ w same. rw same (nothing (ground arith))))
                | inr e ↦ rw e read_page
              ]).at
        start refl contexts h
