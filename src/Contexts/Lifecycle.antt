-- ===== src/Contexts/Lifecycle.antt =====
-- What `apply_update`, `archive` and `restore` of app/domain/models/business_context.py keep.
use mathlib.Core.Path.{subst}
use enterprise_communication.Prelude.{
  ℕ, ◌≡◌, refl, ap, ◌∙◌, Bool, true, not, Option, none, some, arith, if◌then◌else◌, Bool-cases, inl,
  inr,
}
use enterprise_communication.Text.{
  Text, strip_idem, require_non_empty_text, require_non_empty_text_idem,
}
use enterprise_communication.Errors.{
  Error, context_not_mutable, Result, Result-cases, ok, err, ok-eq, >>=-eq-ok,
}
use enterprise_communication.Contexts.Model.{
  BusinessContext, is_active, validate_title, bounded_text, validate_description,
  validate_reference, status_archived_at_ok, validate_lifecycle, validate, ContextUpdate, updated,
  apply_update, archive, restore,
}

validate_title_idem : (s t : Text) → validate_title s ≡ ok t → validate_title t ≡ ok t
unfolding validate_title
validate_title_idem s t h = elim (Result-cases (require_non_empty_text s)) [
  | inl (n, e) ↦ let same : n ≡ t = ground arith in ground (arith, require_non_empty_text_idem s n)
  | inr (c, e) ↦ absurd (ground arith)
]

bounded_text_idem :
    (limit : ℕ) (s t : Option Text) → bounded_text limit s ≡ ok t → bounded_text limit t ≡ ok t
unfolding bounded_text
bounded_text_idem limit none t h = ground arith
bounded_text_idem limit (some s) t h = ground (arith, strip_idem s)

validate_description_idem :
    (s t : Option Text) → validate_description s ≡ ok t → validate_description t ≡ ok t
unfolding validate_description
validate_description_idem s t h = bounded_text_idem 4000 s t h

validate_reference_idem :
    (s t : Option Text) → validate_reference s ≡ ok t → validate_reference t ≡ ok t
unfolding validate_reference
validate_reference_idem s t h = bounded_text_idem 128 s t h

-- A context whose texts are normal and whose archival time fits its status
pub record IsNormal (c : BusinessContext) : Type 0 where
  pub title : validate_title c.title ≡ ok c.title
  pub description : validate_description c.description ≡ ok c.description
  pub reference : validate_reference c.reference ≡ ok c.reference
  pub archival : status_archived_at_ok c ≡ true

updated_normal :
    {A : Type 0} (validate : A → Result A) (old : A) (o : Option A) (new : A)
    → ((s t : A) → validate s ≡ ok t → validate t ≡ ok t)
    → validate old ≡ ok old
    → updated validate old o ≡ ok new
    → validate new ≡ ok new
updated_normal validate old none new idem h e = ground arith
updated_normal validate old (some v) new idem h e = idem v new e

-- What no call changes
pub record SameContext (c c' : BusinessContext) : Type 0 where
  pub id : c'.id ≡ c.id
  pub owner_user_id : c'.owner_user_id ≡ c.owner_user_id
  pub created_at : c'.created_at ≡ c.created_at

pub active_only :
    {A : Type 0} (e : Error) (b : Bool) (r : Result A) (x : A)
    → (if not b then err e else r) ≡ ok x
    → (b ≡ true) × (r ≡ ok x)
active_only e b r x h = ground arith

apply_update-IsNormal :
    (now : ℕ) (patch : ContextUpdate) (c c' : BusinessContext)
    → IsNormal c
    → apply_update now patch c ≡ ok c'
    → IsNormal c' × SameContext c c'
unfolding apply_update status_archived_at_ok
apply_update-IsNormal now patch c c' n h =
    let (_, h0) = active_only context_not_mutable (is_active c.status) _ c' h in
    let (title, h1, k1) = >>=-eq-ok (updated validate_title c.title patch.title) _ c' h0 in
    let (description, h2, k2) =
      >>=-eq-ok (updated validate_description c.description patch.description) _ c' k1 in
    let (reference, h3, k3) =
      >>=-eq-ok (updated validate_reference c.reference patch.reference) _ c' k2 in
    subst (λ (d : BusinessContext). IsNormal d × SameContext c d) (ok-eq _ c' k3)
      (
        record {
          title =
              updated_normal validate_title c.title patch.title title validate_title_idem n.title
                h1;
          description =
              updated_normal validate_description c.description patch.description description
                validate_description_idem n.description h2;
          reference =
              updated_normal validate_reference c.reference patch.reference reference
                validate_reference_idem n.reference h3;
          archival = n.archival;
        },
        record { id = refl; owner_user_id = refl; created_at = refl },
      )

-- The calls that change a context
pub data ContextCall : Type 0 where
  updating : (patch : ContextUpdate) → ContextCall
  archiving restoring : ContextCall

abbrev pub perform : ContextCall → ℕ → BusinessContext → Result BusinessContext
perform (updating patch) now c = apply_update now patch c
perform archiving now c = ok (archive now c)
perform restoring now c = ok (restore now c)

archive-IsNormal :
    (now : ℕ) (c : BusinessContext)
    → IsNormal c
    → IsNormal (archive now c) × SameContext c (archive now c)
unfolding archive status_archived_at_ok
archive-IsNormal now c n = elim (Bool-cases (is_active c.status)) [
  | inl e ↦ rw e (
    record {
      title = n.title;
      description = n.description;
      reference = n.reference;
      archival = refl;
    },
    record { id = refl; owner_user_id = refl; created_at = refl },
  )
  | inr e ↦ rw e (n, record { id = refl; owner_user_id = refl; created_at = refl })
]

restore-IsNormal :
    (now : ℕ) (c : BusinessContext)
    → IsNormal c
    → IsNormal (restore now c) × SameContext c (restore now c)
unfolding restore status_archived_at_ok
restore-IsNormal now c n = elim (Bool-cases (is_active c.status)) [
  | inl e ↦ rw e (n, record { id = refl; owner_user_id = refl; created_at = refl })
  | inr e ↦ rw e (
    record {
      title = n.title;
      description = n.description;
      reference = n.reference;
      archival = refl;
    },
    record { id = refl; owner_user_id = refl; created_at = refl },
  )
]

perform-IsNormal :
    (call : ContextCall) (now : ℕ) (c c' : BusinessContext)
    → IsNormal c
    → perform call now c ≡ ok c'
    → IsNormal c' × SameContext c c'
perform-IsNormal (updating patch) now c c' n h = apply_update-IsNormal now patch c c' n h
perform-IsNormal archiving now c c' n h =
    subst (λ (d : BusinessContext). IsNormal d × SameContext c d) (ok-eq (archive now c) c' h)
      (archive-IsNormal now c n)
perform-IsNormal restoring now c c' n h =
    subst (λ (d : BusinessContext). IsNormal d × SameContext c d) (ok-eq (restore now c) c' h)
      (restore-IsNormal now c n)

IsNormal-rehydrated : (c : BusinessContext) → IsNormal c → validate true c ≡ ok c
unfolding validate validate_lifecycle
IsNormal-rehydrated c n = rw (n.title, n.description, n.reference, n.archival) refl

archival_of :
    (c d : BusinessContext)
    → validate_lifecycle true c ≡ ok d
    → (status_archived_at_ok c ≡ true) × (c ≡ d)
unfolding validate_lifecycle
archival_of c d h = elim (Bool-cases (status_archived_at_ok c)) [
  | inl e ↦ (e, ok-eq c d (rw e at h))
  | inr e ↦ absurd (ground arith)
]

rehydrated-IsNormal : (c : BusinessContext) → validate true c ≡ ok c → IsNormal c
unfolding validate status_archived_at_ok
rehydrated-IsNormal c h =
    let (title, h1, k1) = >>=-eq-ok (validate_title c.title) _ c h in
    let (description, h2, k2) = >>=-eq-ok (validate_description c.description) _ c k1 in
    let (reference, h3, k3) = >>=-eq-ok (validate_reference c.reference) _ c k2 in
    let (fits, same) =
      archival_of (record c { title = title; description = description; reference = reference }) c
        k3 in
    record {
      title = h1 ∙ ap (λ (d : BusinessContext). ok d.title) same;
      description = h2 ∙ ap (λ (d : BusinessContext). ok d.description) same;
      reference = h3 ∙ ap (λ (d : BusinessContext). ok d.reference) same;
      archival = fits;
    }

-- An update, archive or restore that succeeds on a context that rehydrates to itself gives one
-- that rehydrates to itself, with the same id, owner and creation time.
pub perform-rehydrated :
    (call : ContextCall) (now : ℕ) (c c' : BusinessContext)
    → validate true c ≡ ok c
    → perform call now c ≡ ok c'
    → (validate true c' ≡ ok c') × SameContext c c'
perform-rehydrated call now c c' v h =
    let (n, same) = perform-IsNormal call now c c' (rehydrated-IsNormal c v) h in
    (IsNormal-rehydrated c' n, same)
