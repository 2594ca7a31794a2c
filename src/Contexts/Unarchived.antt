-- ===== src/Contexts/Unarchived.antt =====
-- `update` of app/application/services/business_contexts.py while another session archives the
-- context.
use enterprise_communication.Prelude.{
  ℕ, ◌≡◌, refl, sym, ap, ◌∙◌, Bool, true, false, Option, some, List, [], ◌∷◌, ==_refl,
}
use enterprise_communication.Text.{Text}
use enterprise_communication.Errors.{Result, ok, map_error, context_not_mutable, ok-eq, >>=-eq-ok}
use enterprise_communication.Storage.Table.{
  select_first, update_where, count_where, select_first-update_where, count_where-update_where,
}
use enterprise_communication.Storage.Db.{Db}
use enterprise_communication.Storage.UnitOfWork.{
  World, Turn, healthy, statement, query, commit, commit_as, rollback, enter, leave, with_uow,
}
use enterprise_communication.Contexts.Model.{
  BusinessContext, BusinessContextType, is_active, ContextUpdate, validate, validate_title,
  validate_description, validate_reference, updated, or_old, apply_update, archive,
}
use enterprise_communication.Contexts.Repository.{
  is_owned, saved_values, update_context, get_owned, save_owned, to_domain, domain_of,
}
use enterprise_communication.Contexts.Service.{change_owned, as_conflict}
use enterprise_communication.Contexts.Lifecycle.{active_only, perform-rehydrated, updating}

abbrev quiet : Turn Db
quiet = record { fault = healthy; others = λ s. s }

-- The other session archives the context between the read and the conditional update.
abbrev pub meanwhile : (Db → Db) → List (Turn Db)
meanwhile others = quiet ∷ quiet ∷ record { fault = healthy; others = others } ∷ []

abbrev pub with_row : BusinessContext → Db → Db
with_row c s = record s {
  contexts = update_where (is_owned c.id c.owner_user_id) (saved_values c) s.contexts;
}

abbrev edited :
    BusinessContext → BusinessContextType → Text → Option Text → Option Text → ℕ → BusinessContext
edited c type title description reference now = record c {
  type = type;
  title = title;
  description = description;
  reference = reference;
  updated_at = now;
}

own : (c : BusinessContext) → is_owned c.id c.owner_user_id c ≡ true
own c = rw (==_refl c.id, ==_refl c.owner_user_id) refl

module _ (s d : Db) (c a : BusinessContext) (type : BusinessContextType) (title : Text)
    (description reference : Option Text) (now : ℕ)
    (apply : BusinessContext → Result BusinessContext)
    (found : select_first (is_owned c.id c.owner_user_id) s.contexts ≡ some c)
    (one : count_where (is_owned c.id c.owner_user_id) s.contexts ≡ 1)
    (stored : validate true c ≡ ok c)
    (applied : apply c ≡ ok (edited c type title description reference now))
    (storable : validate true (edited c type title description reference now)
      ≡ ok (edited c type title description reference now)) where
  abbrev new : BusinessContext
  new = edited c type title description reference now

  abbrev pub final : Db
  final = with_row new (record s {
    contexts = update_where (is_owned c.id c.owner_user_id) (saved_values a) s.contexts;
  })

  still_one :
      count_where
        (is_owned c.id c.owner_user_id)
        (update_where (is_owned c.id c.owner_user_id) (saved_values a) s.contexts)
      ≡ 1
  still_one =
      count_where-update_where (is_owned c.id c.owner_user_id) (is_owned c.id c.owner_user_id)
        (saved_values a) s.contexts (λ r. refl)
      ∙ one

  abbrev is_it : BusinessContext → Bool
  is_it = is_owned c.id c.owner_user_id

  found_archived :
      select_first is_it (update_where is_it (saved_values a) s.contexts) ≡ some (saved_values a c)
  found_archived =
      select_first-update_where is_it is_it (saved_values a) s.contexts (λ r. refl)
      ∙ rw found (rw (own c) refl)

  found_after : select_first is_it final.contexts ≡ some new
  found_after =
      select_first-update_where is_it is_it (saved_values new)
        (update_where is_it (saved_values a) s.contexts) (λ r. refl)
      ∙ rw found_archived (rw (own c) refl)

  read_old : domain_of (some c) ≡ ok (some c)
  unfolding to_domain
  read_old = rw (stored, domain_of) refl

  read_new : domain_of (some new) ≡ ok (some new)
  unfolding to_domain
  read_new = rw (storable, domain_of) refl

  run_overwrites :
      with_uow (change_owned apply c.owner_user_id c.id) (record {
        pending = d;
        durable = s;
        turns = meanwhile (λ (t : Db). record t {
          contexts = update_where (is_owned c.id c.owner_user_id) (saved_values a) t.contexts;
        });
      })
      ≡ (ok new, record { pending = final; durable = final; turns = [] })
  unfolding with_uow enter leave rollback change_owned get_owned query statement save_owned
      update_context commit commit_as
  run_overwrites = rw (found, read_old, applied, still_one, found_after, read_new) refl

apply_update-edited :
    (now : ℕ) (patch : ContextUpdate) (c changed : BusinessContext)
    → apply_update now patch c ≡ ok changed
    → (is_active c.status ≡ true)
      × (title : Text) × (description : Option Text) × (reference : Option Text) × (edited c
            (or_old c.type patch.type)
            title
            description
            reference
            now
          ≡ changed)
unfolding apply_update
apply_update-edited now patch c changed h =
    let (going, h0) = active_only context_not_mutable (is_active c.status) _ changed h in
    let (title, _, k1) = >>=-eq-ok (updated validate_title c.title patch.title) _ changed h0 in
    let (description, _, k2) =
      >>=-eq-ok (updated validate_description c.description patch.description) _ changed k1 in
    let (reference, _, k3) =
      >>=-eq-ok (updated validate_reference c.reference patch.reference) _ changed k2 in
    (going, title, description, reference, ok-eq _ changed k3)

archive-archived :
    (now : ℕ) (c : BusinessContext)
    → is_active c.status ≡ true
    → is_active (archive now c).status ≡ false
unfolding archive
archive-archived now c h = rw h refl

-- For a stored context of unique id that an update changes, when another session archives the
-- context between the read and the conditional update, and no call of the database fails, the
-- update still succeeds, and the committed context is the changed one, active again.
pub update-unarchives :
    (now then_ : ℕ) (patch : ContextUpdate) (s d : Db) (c changed : BusinessContext)
    → select_first (is_owned c.id c.owner_user_id) s.contexts ≡ some c
    → count_where (is_owned c.id c.owner_user_id) s.contexts ≡ 1
    → validate true c ≡ ok c
    → apply_update now patch c ≡ ok changed
    → let archived : Db → Db = λ t. record t {
      contexts =
          update_where (is_owned c.id c.owner_user_id) (saved_values (archive then_ c)) t.contexts;
    } in
      let (result, w) =
        with_uow
          (change_owned
            (λ x. map_error as_conflict (apply_update now patch x))
            c.owner_user_id
            c.id)
          (record { pending = d; durable = s; turns = meanwhile archived }) in
      (is_active (archive then_ c).status ≡ false)
      × (result ≡ ok changed)
      × (select_first (is_owned c.id c.owner_user_id) w.durable.contexts ≡ some changed)
      × (is_active changed.status ≡ true)
update-unarchives now then_ patch s d c changed found one stored applied =
    let (going, title, description, reference, shape) =
      apply_update-edited now patch c changed applied in
    let apply = λ (x : BusinessContext). map_error as_conflict (apply_update now patch x) in
    let type = or_old c.type patch.type in
    let applied' = applied ∙ ap ok (sym shape) in
    let storable =
      (perform-rehydrated (updating patch) now c (edited c type title description reference now)
        stored applied').0 in
    let run =
      run_overwrites s d c (archive then_ c) type title description reference now apply found one
        stored (ap (map_error as_conflict) applied') storable in
    let after =
      found_after s d c (archive then_ c) type title description reference now apply found one
        stored (ap (map_error as_conflict) applied') storable in
    (
      archive-archived then_ c going,
      ap (λ (r : Result BusinessContext × World Db). r.0) run ∙ ap ok shape,
      ap
            (λ (r : Result BusinessContext × World Db).
              select_first (is_owned c.id c.owner_user_id) r.1.durable.contexts)
            run
          ∙ after
          ∙ ap some shape,
      ap (λ (x : BusinessContext). is_active x.status) (sym shape) ∙ going,
    )
