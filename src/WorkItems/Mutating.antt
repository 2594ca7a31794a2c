-- ===== src/WorkItems/Mutating.antt =====
-- `mutate_owned` of app/infrastructure/storage/repositories/business_work_item.py: what it returns,
-- and what its conditional update leaves.
use mathlib.Core.List.{Mem}
use enterprise_communication.Prelude.{
  ℕ, ◌+◌, ◌≡◌, refl, sym, true, Option, none, some, List, [], ◌∷◌, ==_iff, arith, inl, inr,
  Bool-cases,
}
use enterprise_communication.Errors.{ok, item_not_found}
use enterprise_communication.Storage.Table.{
  select_first, select_first-holds, count_where, update_where,
}
use enterprise_communication.Storage.Db.{Db}
use enterprise_communication.Storage.UnitOfWork.{World, Exec, ◌>>=◌, lift, advance}
use enterprise_communication.Storage.Yields.{
  Yields, Yields-raise, Yields-catch, Yields-bind, Yields-bind-lift, Yields-statement,
}
use enterprise_communication.WorkItems.Model.{
  BusinessWorkItem, WorkItemEvent, WorkItemCommand, validate,
}
use enterprise_communication.WorkItems.Aggregate.{apply}
use enterprise_communication.WorkItems.Versions.{apply-Accepted}
use enterprise_communication.Storage.Returned.{select_first-Mem, Yields-query}
use enterprise_communication.WorkItems.Outcomes.{Outcome, write-Outcome}
use enterprise_communication.WorkItems.Repository.{
  to_domain, domain_of, is_owned, safe_error, is_expected, mutable_values, update_item,
  or_not_found, write, mutate_owned,
}

-- A row that a changed item has been written to is past the old version.
none_expected :
    (item_id user_id version : ℕ) (item : BusinessWorkItem) (rows : List BusinessWorkItem)
    → item.version ≡ version + 1
    → count_where
        (is_expected item_id user_id version)
        (update_where (is_expected item_id user_id version) (mutable_values item) rows)
      ≡ 0
none_expected item_id user_id version item [] h = refl
none_expected item_id user_id version item (r ∷ rows) h =
    elim (Bool-cases (is_expected item_id user_id version r)) [
      | inl e ↦ rw e (
          ground
            (arith, none_expected item_id user_id version item rows h, ==_iff item.version version))
      | inr e ↦ rw e (ground (arith, none_expected item_id user_id version item rows h))
    ]

-- When a command on a work item is accepted with at least one event, its conditional update, once
-- it has returned, leaves no row that a conditional update of the same item, owner and expected
-- version would find.
pub update_item-spent :
    (now user_id item_id : ℕ) (command : WorkItemCommand) (old updated : BusinessWorkItem)
    (event : WorkItemEvent) (events : List WorkItemEvent)
    → apply now user_id command old ≡ ok (updated, event ∷ events)
    → Yields
        (λ w. Unit {0})
        (update_item item_id user_id command.expected_version updated)
        (λ rowcount w.
          count_where (is_expected item_id user_id command.expected_version) w.pending.items ≡ 0)
unfolding update_item
update_item-spent now user_id item_id command old updated event events h =
    let (_, current, accepted) =
      apply-Accepted now user_id command old updated (event ∷ events) h in
    let next : updated.version ≡ command.expected_version + 1 = elim accepted [
      | inl (_, quiet) ↦ absurd (cc)
      | inr n ↦ omega (arith, n.version, current)
    ] in
    Yields-statement _ (λ w _.
      none_expected item_id user_id command.expected_version updated (advance w).pending.items next)

module _ (now item_id user_id : ℕ) (command : WorkItemCommand) where
  -- What is returned: an item that the command was accepted for
  pub record IsMutated (start : World Db) (item : BusinessWorkItem) (w : World Db) : Type 0 where
    pub row : BusinessWorkItem
    pub stored : Mem row (advance start).pending.items
    pub id : row.id ≡ item_id
    pub owner : row.owner_user_id ≡ user_id
    pub old : BusinessWorkItem
    pub read : validate row ≡ ok old
    pub current : old.version ≡ command.expected_version
    pub outcome : Outcome now item_id user_id command old (advance start) item w

  abbrev Loaded : World Db → BusinessWorkItem → Type 0
  Loaded start old =
      (row : BusinessWorkItem) × Mem row (advance start).pending.items
      × (row.id ≡ item_id)
      × (row.owner_user_id ≡ user_id)
      × (validate row ≡ ok old)

  abbrev then_apply : BusinessWorkItem → Exec Db BusinessWorkItem
  then_apply old = do
    (updated, events) ← lift (apply now user_id command old)
    write item_id user_id command.expected_version old updated events

  then_apply-IsMutated :
      (old : BusinessWorkItem) (start : World Db)
      → Loaded start old
      → Yields (λ w. w ≡ advance start) (then_apply old) (IsMutated start)
  then_apply-IsMutated old start (row, stored, id, owner, read) =
      Yields-bind-lift (apply now user_id command old) _ (λ (updated, events) h.
        let (_, current, accepted) = apply-Accepted now user_id command old updated events h in
        record {
          at = λ w same item ran. record {
            row = row;
            stored = stored;
            id = id;
            owner = owner;
            old = old;
            read = read;
            current = sym current;
            outcome =
                (write-Outcome now item_id user_id command old updated events (advance start)
                    accepted).at
                  w same item ran;
          };
        })

  or_not_found-IsMutated :
      (o found : Option BusinessWorkItem) (start : World Db)
      → o ≡ select_first (is_owned item_id user_id) (advance start).pending.items
      → domain_of o ≡ ok found
      → Yields (λ w. w ≡ advance start) (or_not_found found >>= then_apply) (IsMutated start)
  unfolding to_domain
  or_not_found-IsMutated o none start here e = Yields-raise item_not_found
  or_not_found-IsMutated none (some old) start here e = absurd (cc)
  or_not_found-IsMutated (some row) (some old) start here e =
      let rows : List BusinessWorkItem = (advance start).pending.items in
      let mine : is_owned item_id user_id row ≡ true =
        select_first-holds (is_owned item_id user_id) rows row (sym here) in
      then_apply-IsMutated old start (
        row,
        select_first-Mem (is_owned item_id user_id) rows row (sym here),
        ground (arith, ==_iff row.id item_id),
        ground (arith, ==_iff row.owner_user_id user_id),
        ground (arith, e),
      )

  -- When mutate_owned returns an item, its query has found a row of this item and user, which
  -- validates to an item at the expected version. The item returned is that one, and the session
  -- has written nothing, or it is its next version, valid and told by numbered events. Then a new
  -- context was found to be an active one of the user, then exactly one row of this item, user
  -- and expected version was replaced by one with the new values, and then each event was added;
  -- all else in the view of the session is as the other sessions have left it. Statements may
  -- fail, and other sessions may write between any two.
  pub mutate_owned-IsMutated :
      (start : World Db) (item : BusinessWorkItem)
      → (mutate_owned now item_id user_id command start).0 ≡ ok item
      → IsMutated start item (mutate_owned now item_id user_id command start).1
  unfolding mutate_owned
  mutate_owned-IsMutated start item h =
      (Yields-catch {Pre = λ w. w ≡ start} safe_error _ {Post = IsMutated start} (
          Yields-bind
            (λ o w.
              (w ≡ advance start)
              × (o ≡ select_first (is_owned item_id user_id) (advance start).pending.items))
            _ _
            (Yields-query (λ (s : Db). select_first (is_owned item_id user_id) s.items)
              (λ w same. rw same (refl, refl)))
            (λ o. record {
              at = λ w k.
                  (Yields-bind-lift (domain_of o) _
                      (λ found e. or_not_found-IsMutated o found start k.1 e)).at
                    w k.0;
            }))).at
        start refl item h
