-- ===== src/Workflow/Sending.antt =====
-- The reads and the conditional update of
-- app/infrastructure/storage/repositories/workflow_action.py, as the start of an execution uses them.

use enterprise_communication.Prelude.{
  ℕ, ◌≡◌, ◌≢◌, refl, true, Option, none, some, arith, ◌==◌, ==_iff, Bool-cases, inl, inr,
  if◌then◌else◌,
}
use enterprise_communication.Errors.{ok}
use enterprise_communication.Storage.Table.{
  update_where, count_where, select_first-update_where, count_where-update_where,
  select_first_unique, select_first-holds,
}
use enterprise_communication.Storage.Db.{Db}
use enterprise_communication.Storage.Keeps.{Safe, Safe-advance, rely-next}
use enterprise_communication.Storage.Yields.{
  Yields, Yields-pure, Yields-raise, Yields-catch, Yields-bind, Yields-statement,
}
use enterprise_communication.Storage.UnitOfWork.{World, query, advance}
use enterprise_communication.Workflow.Model.{WorkflowAction, approved}
use enterprise_communication.Workflow.Repository.{
  WorkflowActionSaveResult, success, is_expected, lifecycle_values, get_owned, update_lifecycle,
  save_owned, to_domain, is_owned, domain_of, written, unwritten,
}
use enterprise_communication.Workflow.Begun.{
  has_id, is_begun, Unique, Begun, IsHonest, Unique-stable, Begun-stable,
}

-- Under the condition `C`, the session sees an execution that has begun.
pub record Sees (id : ℕ) (C : Type 0) (w : World Db) : Type 0 where
  pub safe : Safe IsHonest (Unique id) w
  pub begins : C → Begun id w.pending

update_begins :
    (id : ℕ) (a : WorkflowAction) (s : Db)
    → a.id ≡ id
    → is_begun a.status ≡ true
    → Unique id s
    → count_where (is_expected a approved) s.actions ≢ 0
    → Begun id (record s {
      actions = update_where (is_expected a approved) (lifecycle_values a) s.actions;
    })
update_begins id a s same going one hit =
    let (r, found, holds) =
      select_first_unique (has_id id) (is_expected a approved) s.actions (λ r h. ground arith) one
        hit in
    rw
      (select_first-update_where (has_id id) (is_expected a approved) (lifecycle_values a) s.actions
        (λ r. refl))
      (rw found (rw holds going))

-- Rehydrating a row keeps its identity.
pub to_domain-id :
    (row a : WorkflowAction)
    → to_domain row ≡ ok a
    → (a.id ≡ row.id) × (a.owner_user_id ≡ row.owner_user_id)
unfolding to_domain
to_domain-id row a h = ground arith

module _ (id : ℕ) (C : Type 0) where
  advance-Sees : (w : World Db) → Sees id C w → Sees id C (advance w)
  advance-Sees w h = record {
    safe = Safe-advance IsHonest (Unique-stable id) w h.safe;
    begins = λ c. rely-next IsHonest (Begun-stable id) w.turns h.safe.rely w.pending (h.begins c);
  }

  query-Sees :
      {A : Type 0} (f : Db → A) {Post : A → World Db → Type 0}
      → ((w : World Db) → Sees id C w → Post (f w.pending) w)
      → Yields (Sees id C) (query f) Post
  unfolding query
  query-Sees f k = Yields-statement (λ s. (f s, s)) (λ w h. k (advance w) (advance-Sees w h))

  -- What a row that was read is known to be.
  abbrev pub Loaded : ℕ → Option WorkflowAction → World Db → Type 0
  Loaded action_id o w = Sees id C w × ((a : WorkflowAction) → o ≡ some a → a.id ≡ action_id)

  loaded_of :
      (action_id user_id : ℕ) (o : Option WorkflowAction)
      → ((r : WorkflowAction) → o ≡ some r → is_owned action_id user_id r ≡ true)
      → (p : Option WorkflowAction) → domain_of o ≡ ok p
      → (a : WorkflowAction) → p ≡ some a
      → a.id ≡ action_id
  loaded_of action_id user_id none k p e a q = ground arith
  loaded_of action_id user_id (some r) k p e a q = ground (arith, k r refl, to_domain-id r a)

  pub get_owned-Sees :
      (action_id user_id : ℕ) → Yields (Sees id C) (get_owned action_id user_id) (Loaded action_id)
  unfolding get_owned
  get_owned-Sees action_id user_id =
      Yields-bind
        (λ o w.
          Sees id C w × ((r : WorkflowAction) → o ≡ some r → is_owned action_id user_id r ≡ true))
        _ _
        (query-Sees _ (λ w h.
          (h, λ r e. select_first-holds (is_owned action_id user_id) w.pending.actions r e)))
        (λ o. record { at = λ w h p e. (h.0, λ a q. loaded_of action_id user_id o h.1 p e a q) })

module _ (id : ℕ) (a : WorkflowAction) (same : a.id ≡ id) (going : is_begun a.status ≡ true) where
  update_lifecycle-Sees :
      Yields (Sees id ⊥) (update_lifecycle a approved) (λ n w. Sees id (n ≡ 1) w)
  unfolding update_lifecycle
  update_lifecycle-Sees = Yields-statement _ (λ w h.
      let w' = advance w in
      let h' = Safe-advance IsHonest (Unique-stable id) w h.safe in
      record {
        safe = record {
          pending =
              rw
                (count_where-update_where (has_id id) (is_expected a approved) (lifecycle_values a)
                  w'.pending.actions (λ r. refl))
                h'.pending;
          durable = h'.durable;
          rely = h'.rely;
        };
        begins = λ one. update_begins id a w'.pending same going h'.pending (omega (arith, one));
      })

  -- What a successful save shows.
  abbrev pub Saved : WorkflowActionSaveResult → World Db → Type 0
  Saved r w =
      Safe IsHonest (Unique id) w
      × ((b : WorkflowAction) → r ≡ success b → Begun id w.pending × (b.id ≡ id))

  written-Saved :
      (n : ℕ) (o : Option WorkflowAction)
      → n ≡ 1
      → Yields (Loaded id (n ≡ 1) a.id o) (written o) Saved
  written-Saved n none one = Yields-raise _
  written-Saved n (some b) one =
      Yields-pure _ (λ w h. (h.0.safe, λ c e. (h.0.begins one, ground (arith, h.1 b refl, same))))

  unwritten-Saved :
      (n : ℕ) (o : Option WorkflowAction) → Yields (Loaded id (n ≡ 1) a.id o) (unwritten o) Saved
  unwritten-Saved n none = Yields-pure _ (λ w h. (h.0.safe, λ c e. absurd (cc)))
  unwritten-Saved n (some b) = Yields-pure _ (λ w h. (h.0.safe, λ c e. absurd (cc)))

  choose-Saved :
      (n : ℕ) (o : Option WorkflowAction)
      → Yields (Loaded id (n ≡ 1) a.id o) (if n == 1 then written o else unwritten o) Saved
  choose-Saved n o = elim (Bool-cases (n == 1)) [
    | inl one ↦ rw one (written-Saved n o ((==_iff n 1).0 one))
    | inr other ↦ rw other (unwritten-Saved n o)
  ]

  pub save_owned-Sees : Yields (Sees id ⊥) (save_owned a approved) Saved
  unfolding save_owned
  save_owned-Sees =
      Yields-bind (λ n w. Sees id (n ≡ 1) w) _ _ (Yields-catch _ _ update_lifecycle-Sees)
        (λ n.
          Yields-bind (Loaded id (n ≡ 1) a.id) _ _ (get_owned-Sees id (n ≡ 1) a.id a.owner_user_id)
            (choose-Saved n))
