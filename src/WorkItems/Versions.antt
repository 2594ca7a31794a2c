-- ===== src/WorkItems/Versions.antt =====
-- `apply` of app/domain/models/business_work_item.py: versions and events.
use mathlib.Core.Path.{subst}
use enterprise_communication.Prelude.{
  ℕ, suc, ◌+◌, ◌≡◌, ◌≢◌, ◌⊎◌, inl, inr, refl, ap, ◌∙◌, ==_iff, Bool, true, not, ◌&&◌, none, some,
  List, [], ◌∷◌, ◌==◌, arith, if◌then◌else◌,
}
use enterprise_communication.Errors.{
  >>=-eq-ok, ok-eq, Error, invalid_value, item_not_found, version_conflict, ◌>>=◌, Result, ok, err,
}
use enterprise_communication.WorkItems.Model.{
  WorkItemCommand, BusinessWorkItem, WorkItemEvent, validate, invariants, title_text,
  description_text, fields_ok, creation_key_ok, digest_ok,
}
use enterprise_communication.WorkItems.Aggregate.{plan, settle, apply, numbered, Draft, Plan, event}
use enterprise_communication.WorkItems.Plans.{SameItem, IsPlan, plan-IsPlan}

-- What `model_validate` leaves alone
pub record IsValidated (next item : BusinessWorkItem) : Type 0 where
  pub same : SameItem next item
  pub version : item.version ≡ next.version
  pub updated_at : item.updated_at ≡ next.updated_at
  pub valid : invariants item ≡ true

both_ok :
    {A B C : Type 0} (r : Result A) (q : Result B) (f : A → B → Result C) (c : C)
    → (r >>= λ a. q >>= λ b. f a b) ≡ ok c
    → (a : A) × (b : B) × (f a b ≡ ok c)
both_ok (ok a) (ok b) f c h = (a, b, h)
both_ok (ok a) (err e) f c h = absurd (cc)
both_ok (err e) q f c h = absurd (cc)

tested :
    {A : Type 0} (e : Error) (a b c d : Bool) (x y : A)
    → (if a && b && c && d then ok x else err e) ≡ ok y
    → (d ≡ true) × (x ≡ y)
tested e a b c d x y h = ground arith

pub validate-IsValidated :
    (next item : BusinessWorkItem) → validate next ≡ ok item → IsValidated next item
unfolding validate
validate-IsValidated next item h =
    let (t, d, e) = both_ok (title_text next.title) (description_text next.description) _ item h in
    let (valid, same) =
      tested invalid_value (fields_ok (record next { title = t; description = d }))
        (creation_key_ok next.creation_key) (digest_ok next.creation_request_hash)
        (invariants (record next { title = t; description = d }))
        (record next { title = t; description = d }) item e in
    subst (IsValidated next) same (record {
      same = record {
        id = refl;
        owner_user_id = refl;
        created_at = refl;
        creation_key = refl;
        creation_request_hash = refl;
        origin_candidate_key = refl;
      };
      version = refl;
      updated_at = refl;
      valid = valid;
    })

-- The events of a version, with the ordinals from `i` on.
abbrev pub Numbered : BusinessWorkItem → ℕ → List WorkItemEvent → Type 0
Numbered item i [] = Unit
Numbered item i (e ∷ es) =
    (e.item_version ≡ item.version)
    × (e.event_ordinal ≡ i)
    × (e.work_item_id ≡ item.id)
    × (e.actor_user_id ≡ item.owner_user_id)
    × (e.occurred_at ≡ item.updated_at)
    × Numbered item (suc i) es

numbered-Numbered :
    (item : BusinessWorkItem) (i : ℕ) (ds : List Draft) → Numbered item i (numbered item i ds)
unfolding numbered event
numbered-Numbered item i [] = tt
numbered-Numbered item i (d ∷ ds) =
    (refl, refl, refl, refl, refl, numbered-Numbered item (suc i) ds)

numbered-told : (item : BusinessWorkItem) (ds : List Draft) → ds ≢ [] → numbered item 0 ds ≢ []
unfolding numbered
numbered-told item [] h = absurd (h refl)
numbered-told item (d ∷ ds) h = λ e. absurd (cc)

-- What an accepted command does: nothing at all, or one more version with its events.
pub record IsNextVersion (now : ℕ) (item item' : BusinessWorkItem) (events : List WorkItemEvent)
    : Type 0 where
  pub same : SameItem item item'
  pub version : item'.version ≡ item.version + 1
  pub updated_at : item'.updated_at ≡ now
  pub valid : invariants item' ≡ true
  pub told : events ≢ []
  pub numbering : Numbered item' 0 events

abbrev pub Accepted : ℕ → BusinessWorkItem → BusinessWorkItem → List WorkItemEvent → Type 0
Accepted now item item' events =
    ((item' ≡ item) × (events ≡ [])) ⊎ IsNextVersion now item item' events

next_version :
    (now : ℕ) (item next updated : BusinessWorkItem) (drafts : List Draft)
    → IsPlan item next drafts
    → IsValidated (record next { updated_at = now; version = item.version + 1 }) updated
    → IsNextVersion now item updated (numbered updated 0 drafts)
next_version now item next updated drafts p v = record {
  same = record {
    id = p.same.id ∙ v.same.id;
    owner_user_id = p.same.owner_user_id ∙ v.same.owner_user_id;
    created_at = p.same.created_at ∙ v.same.created_at;
    creation_key = p.same.creation_key ∙ v.same.creation_key;
    creation_request_hash = p.same.creation_request_hash ∙ v.same.creation_request_hash;
    origin_candidate_key = p.same.origin_candidate_key ∙ v.same.origin_candidate_key;
  };
  version = v.version;
  updated_at = v.updated_at;
  valid = v.valid;
  told = numbered-told updated drafts p.told;
  numbering = numbered-Numbered updated 0 drafts;
}

settle-Accepted :
    (now : ℕ) (item : BusinessWorkItem) (p : Plan)
    → ((next : BusinessWorkItem) (drafts : List Draft)
        → p ≡ some (next, drafts)
        → IsPlan item next drafts)
    → (item' : BusinessWorkItem) (events : List WorkItemEvent)
    → settle now item p ≡ ok (item', events)
    → Accepted now item item' events
unfolding settle
settle-Accepted now item none k item' events h = inl (ground arith, ground arith)
settle-Accepted now item (some (next, drafts)) k item' events h =
    let (updated, valid, same) =
      >>=-eq-ok (validate (record next { updated_at = now; version = item.version + 1 })) _
        (item', events) h in
    inr (
      subst (λ (p : BusinessWorkItem × List WorkItemEvent). IsNextVersion now item p.0 p.1)
        (ok-eq (updated, numbered updated 0 drafts) (item', events) same)
        (next_version now item next updated drafts (k next drafts refl)
          (validate-IsValidated _ updated valid)))

admission :
    {A : Type 0} (e f : Error) (a b : Bool) (r : Result A) (y : A)
    → (if not a then err e else if not b then err f else r) ≡ ok y
    → (a ≡ true) × (b ≡ true) × (r ≡ ok y)
admission e f a b r y h = ground arith

-- A work item command is accepted only from the owner and at the expected version; it then changes
-- nothing and yields no event, or yields a valid item with the same identity, the next version and
-- at least one event, numbered from 0 under that version.
pub apply-Accepted :
    (now user_id : ℕ) (command : WorkItemCommand) (item item' : BusinessWorkItem)
    (events : List WorkItemEvent)
    → apply now user_id command item ≡ ok (item', events)
    → (user_id ≡ item.owner_user_id)
      × (command.expected_version ≡ item.version)
      × Accepted now item item' events
unfolding apply
apply-Accepted now user_id command item item' events h =
    let (owned, current, rest) =
      admission item_not_found version_conflict (user_id == item.owner_user_id)
        (command.expected_version == item.version) _ (item', events) h in
    let (p, planned, settled) =
      >>=-eq-ok (plan now command.operation item) _ (item', events) rest in
    (
      (==_iff user_id item.owner_user_id).0 owned,
      (==_iff command.expected_version item.version).0 current,
      settle-Accepted now item p
          (λ next drafts e. plan-IsPlan now command.operation item next drafts (planned ∙ ap ok e))
          item' events settled,
    )
