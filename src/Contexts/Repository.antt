-- ===== src/Contexts/Repository.antt =====
-- app/infrastructure/storage/repositories/business_context.py, without the timeline. A row has the
-- fields of the domain object.
use enterprise_communication.Prelude.{
  ℕ, Bool, true, false, ◌&&◌, ◌||◌, Option, none, some, List, [], ◌∷◌, ◌==◌, ltb, any,
  if◌then◌else◌, take, drop, min,
}
use enterprise_communication.Text.{Text, text_eq}
use enterprise_communication.Errors.{
  Error, persistence, Result, ok, err, map_error, ◌>>=◌ as ◌then◌,
}
use enterprise_communication.Storage.Table.{select_first, select_all, update_where, count_where}
use enterprise_communication.Storage.Db.{Db}
use enterprise_communication.Storage.UnitOfWork.{
  Exec, ◌>>=◌, ◌>>◌, pure, raise, lift, catch, query, statement,
}
use enterprise_communication.Contexts.Model.{
  BusinessContext, BusinessContextStatus, BusinessContextType, active, archived, matter,
  case_context, project, client, transaction, account, other, validate,
}

-- `_to_domain`
unfoldable pub to_domain : BusinessContext → Result BusinessContext
unfolding validate
to_domain row = map_error (λ e. persistence) (validate true row)

abbrev pub domain_of : Option BusinessContext → Result (Option BusinessContext)
domain_of none = ok none
domain_of (some row) = elim (to_domain row) [ ok c ↦ ok (some c) | err e ↦ err e ]

abbrev pub has_id : ℕ → BusinessContext → Bool
has_id id row = row.id == id

abbrev pub is_owned : ℕ → ℕ → BusinessContext → Bool
is_owned id user_id row = row.id == id && row.owner_user_id == user_id

abbrev require_inserted : Bool → Exec Db (Unit {0})
require_inserted true = pure tt
require_inserted false = raise persistence

-- The flush inside `begin_nested`, refused by the primary key
unfoldable pub insert_context : BusinessContext → Exec Db Bool
insert_context row = statement (λ s.
    if any (has_id row.id) s.contexts
    then (false, s)
    else (true, record s { contexts = row ∷ s.contexts }))

unfoldable pub add : BusinessContext → Exec Db BusinessContext
unfolding insert_context to_domain
add c = do inserted ← insert_context c; require_inserted inserted; lift (to_domain c)

unfoldable pub get_owned : ℕ → ℕ → Exec Db (Option BusinessContext)
unfolding to_domain
get_owned id user_id = do
  row ← query (λ s. select_first (is_owned id user_id) s.contexts)
  lift (domain_of row)

abbrev type_index : BusinessContextType → ℕ
type_index matter = 0
type_index case_context = 1
type_index project = 2
type_index client = 3
type_index transaction = 4
type_index account = 5
type_index other = 6

abbrev pub type_eq : BusinessContextType → BusinessContextType → Bool
type_eq a b = type_index a == type_index b

abbrev status_index : BusinessContextStatus → ℕ
status_index active = 0
status_index archived = 1

abbrev pub status_eq : BusinessContextStatus → BusinessContextStatus → Bool
status_eq a b = status_index a == status_index b

-- A filter that is not given lets every row pass.
abbrev pub passes : {A : Type 0} → (A → A → Bool) → A → Option A → Bool
passes eq value none = true
passes eq value (some wanted) = eq value wanted

abbrev pub reference_passes : Option Text → Option Text → Bool
reference_passes value none = true
reference_passes none (some wanted) = false
reference_passes (some value) (some wanted) = text_eq value wanted

pub record ContextFilter : Type 0 where
  pub status : Option BusinessContextStatus
  pub type : Option BusinessContextType
  pub reference : Option Text

abbrev pub is_listed : ℕ → ContextFilter → BusinessContext → Bool
is_listed user_id f row =
    row.owner_user_id == user_id
    && passes status_eq row.status f.status
    && passes type_eq row.type f.type
    && reference_passes row.reference f.reference

-- `ORDER BY created_at DESC, id DESC`
abbrev pub comes_first : BusinessContext → BusinessContext → Bool
comes_first a b = ltb b.created_at a.created_at || a.created_at == b.created_at && ltb b.id a.id

unfoldable pub insert_ordered : BusinessContext → List BusinessContext → List BusinessContext
insert_ordered c [] = c ∷ []
insert_ordered c (d ∷ rows) =
    let rest = insert_ordered c rows in if comes_first d c then d ∷ rest else c ∷ d ∷ rows

unfoldable pub newest_first : List BusinessContext → List BusinessContext
unfolding insert_ordered
newest_first [] = []
newest_first (c ∷ rows) = insert_ordered c (newest_first rows)

-- `[_to_domain(row) for row in rows]`
unfoldable pub all_to_domain : List BusinessContext → Result (List BusinessContext)
unfolding to_domain
all_to_domain [] = ok []
all_to_domain (row ∷ rows) = elim (to_domain row) [
  | err e ↦ err e
  | ok c ↦ elim (all_to_domain rows) [ err e ↦ err e | ok cs ↦ ok (c ∷ cs) ]
]

unfoldable pub page_of :
    (limit offset : ℕ) → ℕ → ContextFilter → List BusinessContext → List BusinessContext
unfolding newest_first
page_of limit offset user_id f rows =
    take (min limit 100) (drop offset (newest_first (select_all (is_listed user_id f) rows)))

unfoldable pub list_owned : ℕ → (limit offset : ℕ) → ContextFilter → Exec Db (List BusinessContext)
unfolding page_of all_to_domain
list_owned user_id limit offset f = if ltb limit 1 then pure [] else (do
  rows ← query (λ s. page_of limit offset user_id f s.contexts)
  lift (all_to_domain rows))

-- What `save_owned` writes over a row
abbrev pub saved_values : BusinessContext → BusinessContext → BusinessContext
saved_values c row = record row {
  type = c.type;
  title = c.title;
  description = c.description;
  reference = c.reference;
  status = c.status;
  archived_at = c.archived_at;
  updated_at = c.updated_at;
}

unfoldable pub update_context : BusinessContext → Exec Db ℕ
update_context c = statement (λ s. (
  count_where (is_owned c.id c.owner_user_id) s.contexts,
  record s { contexts = update_where (is_owned c.id c.owner_user_id) (saved_values c) s.contexts },
))

abbrev require_loaded : Option BusinessContext → Exec Db (Option BusinessContext)
require_loaded none = raise persistence
require_loaded (some c) = pure (some c)

abbrev driver_is_persistence : Error → Error
driver_is_persistence e = persistence

-- `save_owned`: `none` unless one row was written
unfoldable pub save_owned : BusinessContext → Exec Db (Option BusinessContext)
unfolding update_context get_owned
save_owned c = do
  rowcount ← catch driver_is_persistence (update_context c)
  if rowcount == 1
      then (do loaded ← get_owned c.id c.owner_user_id; require_loaded loaded)
      else pure none
