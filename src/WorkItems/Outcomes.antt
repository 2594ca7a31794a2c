-- ===== src/WorkItems/Outcomes.antt =====
-- From `if not events` on in `mutate_owned` of
-- app/infrastructure/storage/repositories/business_work_item.py: what it leaves behind.
use enterprise_communication.Prelude.{
  ℕ, ◌≡◌, refl, Bool, List, [], ◌∷◌, ◌==◌, arith, inl, inr, Bool-cases, if◌then◌else◌,
}
use enterprise_communication.Errors.{version_conflict}
use enterprise_communication.Storage.Table.{count_where, update_where}
use enterprise_communication.Storage.Db.{Db}
use enterprise_communication.Storage.UnitOfWork.{World, raise, advance}
use enterprise_communication.Storage.Yields.{
  Yields, Yields-pure, Yields-raise, Yields-bind, Yields-statement,
}
use enterprise_communication.WorkItems.Model.{BusinessWorkItem, WorkItemEvent, WorkItemCommand}
use enterprise_communication.WorkItems.Versions.{IsNextVersion, Accepted}
use enterprise_communication.WorkItems.Written.{
  Replaced, updated-Replaced, with_rows, appended, append_events-appended,
}
use enterprise_communication.WorkItems.Checked.{Checked, require_context-Checked}
use enterprise_communication.WorkItems.Repository.{
  is_expected, mutable_values, update_item, append_events, write,
}

module _ (now item_id user_id : ℕ) (command : WorkItemCommand) where
  -- The changed item and its events are in the view of the session: the check of its context has
  -- come first, then the update of the one row, then the events.
  pub record IsWritten (old item : BusinessWorkItem) (events : List WorkItemEvent)
      (start w : World Db) : Type 0 where
    pub checked : World Db
    pub context : Checked user_id old.business_context_id item.business_context_id start checked
    pub rows : List BusinessWorkItem
    pub replaced :
        Replaced item_id user_id command.expected_version item (advance checked).pending.items rows
    pub left : w ≡ appended events (with_rows rows (advance checked))

  -- What is left behind: nothing for an unchanged item, all the writes for a changed one
  pub data Outcome (old : BusinessWorkItem) (start : World Db)
      : BusinessWorkItem → World Db → Type 0 where
    quiet : Outcome old start old start
    changed :
        (item : BusinessWorkItem) (events : List WorkItemEvent) (w : World Db)
        → IsNextVersion now old item events
        → IsWritten old item events start w
        → Outcome old start item w

  update_item-Replaced :
      (updated : BusinessWorkItem) (start : World Db)
      → Yields
          (λ w. w ≡ start)
          (update_item item_id user_id command.expected_version updated)
          (λ rowcount w.
            (w
              ≡ with_rows
                  (update_where
                    (is_expected item_id user_id command.expected_version)
                    (mutable_values updated)
                    (advance start).pending.items)
                  (advance start))
            × (rowcount
                ≡ count_where
                    (is_expected item_id user_id command.expected_version)
                    (advance start).pending.items))
  unfolding update_item
  update_item-Replaced updated start = Yields-statement _ (λ w same. rw same (refl, refl))

  told_once :
      (count rowcount : ℕ) (events : List WorkItemEvent) (start : World Db)
      → Yields
          (λ w. (w ≡ start) × (rowcount ≡ count))
          (if rowcount == 1 then append_events events else raise version_conflict)
          (λ _ w. (count ≡ 1) × (w ≡ appended events start))
  told_once count rowcount events start = elim (Bool-cases (rowcount == 1)) [
    | inr e ↦ rw e (Yields-raise version_conflict)
    | inl e ↦ rw e (record {
      at = λ w h a ran. (ground (arith, h.1), (append_events-appended events start).at w h.0 a ran);
    })
  ]

  -- What the code behind an accepted command leaves
  pub write-Outcome :
      (old updated : BusinessWorkItem) (events : List WorkItemEvent) (start : World Db)
      → Accepted now old updated events
      → Yields
          (λ w. w ≡ start)
          (write item_id user_id command.expected_version old updated events)
          (Outcome old start)
  write-Outcome old updated [] start accepted = Yields-pure old (λ w same. rw same quiet)
  write-Outcome old updated (event ∷ events) start (inl (same, silent)) = absurd (cc)
  write-Outcome old updated (event ∷ events) start (inr next) =
      let expected : BusinessWorkItem → Bool =
        is_expected item_id user_id command.expected_version in
      Yields-bind
        (λ _ w. Checked user_id old.business_context_id updated.business_context_id start w) _ _
        (require_context-Checked user_id old.business_context_id updated.business_context_id start)
        (λ _. record {
          at = λ checked context.
              let before : List BusinessWorkItem = (advance checked).pending.items in
              let after : List BusinessWorkItem =
                update_where expected (mutable_values updated) before in
              let changed_rows : World Db = with_rows after (advance checked) in
              (Yields-bind {Post = Outcome old start}
                  (λ rowcount w. (w ≡ changed_rows) × (rowcount ≡ count_where expected before)) _ _
                  (update_item-Replaced updated checked)
                  (λ rowcount.
                    Yields-bind
                      (λ _ w.
                        (count_where expected before ≡ 1)
                        × (w ≡ appended (event ∷ events) changed_rows))
                      _ _
                      (told_once (count_where expected before) rowcount (event ∷ events)
                        changed_rows)
                      (λ _. Yields-pure updated (λ w h.
                        changed updated (event ∷ events) w next (record {
                          checked = checked;
                          context = context;
                          rows = after;
                          replaced =
                              updated-Replaced item_id user_id command.expected_version updated
                                before h.0;
                          left = h.1;
                        }))))).at
                checked refl;
        })
