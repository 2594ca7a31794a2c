-- ===== src/Contexts/Listed.antt =====
-- Which rows `list_owned` of app/infrastructure/storage/repositories/business_context.py lists, and
-- in which order, said without its SQL.
use mathlib.Core.Path.{subst}
use enterprise_communication.Prelude.{
  ℕ, ◌<◌, ◌≤◌, ◌≡◌, ◌⊎◌, refl, Bool, true, false, ◌&&◌, Option, none, some, List, [], ◌∷◌, arith,
  ==_iff,
}
use enterprise_communication.Text.{Text, text_eq_iff}
use enterprise_communication.Contexts.Model.{
  BusinessContext, BusinessContextStatus, BusinessContextType, active, archived, matter,
  case_context, project, client, transaction, account, other,
}
use enterprise_communication.Contexts.Repository.{
  ContextFilter, status_eq, type_eq, passes, reference_passes, is_listed, comes_first,
}

-- A row of the user that has the status, the type and the reference that are asked for
pub record Listed (user_id : ℕ) (f : ContextFilter) (c : BusinessContext) : Type 0 where
  pub owner : c.owner_user_id ≡ user_id
  pub status : (s : BusinessContextStatus) → f.status ≡ some s → c.status ≡ s
  pub type : (t : BusinessContextType) → f.type ≡ some t → c.type ≡ t
  pub reference : (r : Text) → f.reference ≡ some r → c.reference ≡ some r

-- `c` may stand before `d`: it is newer, or as old with no smaller id.
abbrev pub Before : BusinessContext → BusinessContext → Type 0
Before c d = (d.created_at < c.created_at) ⊎ ((d.created_at ≡ c.created_at) × (d.id ≤ c.id))

abbrev pub InOrder : List BusinessContext → Type 0
InOrder [] = Unit
InOrder (c ∷ []) = Unit
InOrder (c ∷ d ∷ rows) = Before c d × InOrder (d ∷ rows)

pub comes_first-Before : (c d : BusinessContext) → comes_first d c ≡ false → Before c d
comes_first-Before c d h = ground arith

status_eq_sound : (a b : BusinessContextStatus) → status_eq a b ≡ true → a ≡ b
status_eq_sound active active h = refl
status_eq_sound active archived h = absurd (cc)
status_eq_sound archived active h = absurd (cc)
status_eq_sound archived archived h = refl

status_eq_refl : (a : BusinessContextStatus) → status_eq a a ≡ true
status_eq_refl active = refl
status_eq_refl archived = refl

type_eq_refl : (a : BusinessContextType) → type_eq a a ≡ true
type_eq_refl matter = refl
type_eq_refl case_context = refl
type_eq_refl project = refl
type_eq_refl client = refl
type_eq_refl transaction = refl
type_eq_refl account = refl
type_eq_refl other = refl

type_eq_sound : (a b : BusinessContextType) → type_eq a b ≡ true → a ≡ b
type_eq_sound a b h = ground arith

module _ {A : Type 0} (eq : A → A → Bool) where
  passes_sound :
      (sound : (a b : A) → eq a b ≡ true → a ≡ b) (value : A) (o : Option A)
      → passes eq value o ≡ true
      → (wanted : A) → o ≡ some wanted
      → value ≡ wanted
  passes_sound sound value none h wanted e = absurd (cc)
  passes_sound sound value (some w) h wanted e =
      let same : w ≡ wanted = cc in subst (λ x. value ≡ x) same (sound value w h)

  passes_complete :
      (reflexive : (a : A) → eq a a ≡ true) (value : A) (o : Option A)
      → ((wanted : A) → o ≡ some wanted → value ≡ wanted)
      → passes eq value o ≡ true
  passes_complete reflexive value none k = refl
  passes_complete reflexive value (some w) k =
      subst (λ x. eq value x ≡ true) (k w refl) (reflexive value)

reference_passes_sound :
    (value o : Option Text)
    → reference_passes value o ≡ true
    → (wanted : Text) → o ≡ some wanted
    → value ≡ some wanted
reference_passes_sound value none h wanted e = absurd (cc)
reference_passes_sound none (some w) h wanted e = absurd (cc)
reference_passes_sound (some v) (some w) h wanted e = let same : v ≡ w = (text_eq_iff v w).0 h in cc

reference_passes_complete :
    (value o : Option Text)
    → ((wanted : Text) → o ≡ some wanted → value ≡ some wanted)
    → reference_passes value o ≡ true
reference_passes_complete value none k = refl
reference_passes_complete none (some w) k = absurd (let e = k w refl in cc)
reference_passes_complete (some v) (some w) k = (text_eq_iff v w).1 (let e = k w refl in cc)

all_true :
    (a b c d : Bool) → (a && b && c && d) ≡ true → (a ≡ true) × (b ≡ true) × (c ≡ true) × (d ≡ true)
all_true a b c d h = ground arith

true_all : (a b c d : Bool) → a ≡ true → b ≡ true → c ≡ true → d ≡ true → (a && b && c && d) ≡ true
true_all a b c d p q r s = ground arith

module _ (user_id : ℕ) (f : ContextFilter) (c : BusinessContext) where
  pub is_listed-Listed : is_listed user_id f c ≡ true → Listed user_id f c
  is_listed-Listed h =
      let (mine, s, t, r) = all_true _ _ _ _ h in
      record {
        owner = (==_iff c.owner_user_id user_id).0 mine;
        status = passes_sound status_eq status_eq_sound c.status f.status s;
        type = passes_sound type_eq type_eq_sound c.type f.type t;
        reference = reference_passes_sound c.reference f.reference r;
      }

  pub Listed-is_listed : Listed user_id f c → is_listed user_id f c ≡ true
  Listed-is_listed l =
      true_all _ _ _ _ ((==_iff c.owner_user_id user_id).1 l.owner)
        (passes_complete status_eq status_eq_refl c.status f.status l.status)
        (passes_complete type_eq type_eq_refl c.type f.type l.type)
        (reference_passes_complete c.reference f.reference l.reference)
