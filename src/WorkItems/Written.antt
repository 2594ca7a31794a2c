-- ===== src/WorkItems/Written.antt =====
-- The writes of `mutate_owned` of app/infrastructure/storage/repositories/business_work_item.py:
-- the conditional update, the events and the check of the context.
use enterprise_communication.Prelude.{
  ℕ, suc, ◌≡◌, inl, inr, refl, ap, Bool, true, false, List, [], ◌∷◌, ◌++◌, ==_iff, any, arith,
  Bool-cases, if◌then◌else◌,
}
use enterprise_communication.Errors.{persistence}
use enterprise_communication.Storage.Table.{count_where, update_where, update_where-none}
use enterprise_communication.Storage.Db.{Db}
use enterprise_communication.Storage.UnitOfWork.{World, advance}
use enterprise_communication.Storage.Yields.{
  Yields, Yields-pure, Yields-raise, Yields-bind, Yields-statement,
}
use enterprise_communication.WorkItems.Model.{BusinessWorkItem, WorkItemEvent}
use enterprise_communication.WorkItems.Plans.{SameItem}
use enterprise_communication.WorkItems.Repository.{
  is_expected, mutable_values, same_order, require_inserted, append_events,
}

-- The values that a change of an item can write
pub record SameValues (item row : BusinessWorkItem) : Type 0 where
  pub title : row.title ≡ item.title
  pub description : row.description ≡ item.description
  pub business_context_id : row.business_context_id ≡ item.business_context_id
  pub due : row.due ≡ item.due
  pub status : row.status ≡ item.status
  pub completed_at : row.completed_at ≡ item.completed_at
  pub cancelled_at : row.cancelled_at ≡ item.cancelled_at
  pub archived_at : row.archived_at ≡ item.archived_at
  pub updated_at : row.updated_at ≡ item.updated_at
  pub version : row.version ≡ item.version

-- One row of the table, that of the item at the version, is replaced by one with the values of the
-- changed item.
pub record Replaced (item_id user_id version : ℕ) (item : BusinessWorkItem)
    (before after : List BusinessWorkItem) : Type 0 where
  pub front : List BusinessWorkItem
  pub row : BusinessWorkItem
  pub written : BusinessWorkItem
  pub behind : List BusinessWorkItem
  pub was : before ≡ front ++ row ∷ behind
  pub becomes : after ≡ front ++ written ∷ behind
  pub id : row.id ≡ item_id
  pub owner : row.owner_user_id ≡ user_id
  pub current : row.version ≡ version
  pub same : SameItem row written
  pub values : SameValues item written

-- A test that counts one row splits the table there, and an update by it changes that row only.
one_row :
    {R : Type 0} (p : R → Bool) (f : R → R) (rows : List R)
    → count_where p rows ≡ 1
    → (front : List R) × (row : R) × (behind : List R) × (rows ≡ front ++ row ∷ behind)
      × (p row ≡ true)
      × (update_where p f rows ≡ front ++ f row ∷ behind)
one_row p f [] h = absurd (omega arith)
one_row p f (x ∷ rows) h = elim (Bool-cases (p x)) [
  | inl e ↦
      let rest : update_where p f rows ≡ rows =
        update_where-none p f rows
          (let c : suc (count_where p rows) ≡ 1 = rw e at h in omega arith) in
      ([], x, rows, refl, e, rw e (ap (λ l. f x ∷ l) rest))
  | inr e ↦
      let (front, row, behind, was, holds, becomes) = one_row p f rows (rw e at h) in
      (x ∷ front, row, behind, ap (λ l. x ∷ l) was, holds, rw e (ap (λ l. x ∷ l) becomes))
]

pub updated-Replaced :
    (item_id user_id version : ℕ) (item : BusinessWorkItem) (rows : List BusinessWorkItem)
    → count_where (is_expected item_id user_id version) rows ≡ 1
    → Replaced item_id user_id version item rows
        (update_where (is_expected item_id user_id version) (mutable_values item) rows)
updated-Replaced item_id user_id version item rows h =
    let (front, row, behind, was, holds, becomes) =
      one_row (is_expected item_id user_id version) (mutable_values item) rows h in
    record {
      front = front;
      row = row;
      written = mutable_values item row;
      behind = behind;
      was = was;
      becomes = becomes;
      id = ground (arith, ==_iff row.id item_id);
      owner = ground (arith, ==_iff row.owner_user_id user_id);
      current = ground (arith, ==_iff row.version version);
      same = record {
        id = refl;
        owner_user_id = refl;
        created_at = refl;
        creation_key = refl;
        creation_request_hash = refl;
        origin_candidate_key = refl;
      };
      values = record {
        title = refl;
        description = refl;
        business_context_id = refl;
        due = refl;
        status = refl;
        completed_at = refl;
        cancelled_at = refl;
        archived_at = refl;
        updated_at = refl;
        version = refl;
      };
    }

-- The world with other rows of items in the view of the session
abbrev pub with_rows : List BusinessWorkItem → World Db → World Db
with_rows rows w = record w { pending = record w.pending { items = rows } }

-- The world with one more event in the view of the session
abbrev pub with_event : WorkItemEvent → World Db → World Db
with_event e w = record w { pending = record w.pending { item_events = e ∷ w.pending.item_events } }

-- Each event is added in a call of its own; the writes of other sessions come in between.
abbrev pub appended : List WorkItemEvent → World Db → World Db
appended [] w = w
appended (e ∷ es) w = appended es (with_event e (advance w))

insert_event : WorkItemEvent → Bool → Db → Bool × Db
insert_event event taken s =
    if taken then (false, s) else (true, record s { item_events = event ∷ s.item_events })

insert_event-inserted :
    (event : WorkItemEvent) (taken : Bool) (w : World Db)
    → (insert_event event taken w.pending).0 ≡ true
    → record w { pending = (insert_event event taken w.pending).1 } ≡ with_event event w
unfolding insert_event
insert_event-inserted event true w h = absurd (cc)
insert_event-inserted event false w h = refl

pub append_events-appended :
    (events : List WorkItemEvent) (start : World Db)
    → Yields (λ w. w ≡ start) (append_events events) (λ _ w. w ≡ appended events start)
unfolding append_events insert_event
append_events-appended [] start = Yields-pure tt (λ w h. h)
append_events-appended (event ∷ events) start =
    Yields-bind (λ inserted w. inserted ≡ true → w ≡ with_event event (advance start)) _ _
      (Yields-statement (λ (s : Db). insert_event event (any (same_order event) s.item_events) s)
        (λ w same. rw same (
          insert_event-inserted event (any (same_order event) (advance start).pending.item_events)
            (advance start))))
      (λ inserted.
        Yields-bind (λ _ w. w ≡ with_event event (advance start)) _ _ (checked_insert inserted)
          (λ _. append_events-appended events (with_event event (advance start))))
  where
    checked_insert :
        {P : World Db → Type 0} (inserted : Bool)
        → Yields (λ w. inserted ≡ true → P w) (require_inserted inserted) (λ _. P)
    checked_insert true = Yields-pure tt (λ w h. h refl)
    checked_insert false = Yields-raise persistence
