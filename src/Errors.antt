-- ===== src/Errors.antt =====
-- The exceptions that the modelled code raises, and results that carry one.
use enterprise_communication.Prelude.{◌≡◌, refl, ◌⊎◌, inl, inr}

-- app/core/exceptions.py, app/domain/exceptions.py, app/application/exceptions.py. `driver` is
-- `SQLAlchemyError`, `invalid_value` is Python's `ValueError` (pydantic's `ValidationError` is
-- one). The two `duplicate_…` errors are `PersistenceError`s whose message the services test for.
pub data Error : Type 0 where
  driver persistence service_unavailable invalid_value : Error
  duplicate_identity duplicate_account unexpected : Error
  analysis_not_found analysis_has_no_draft_reply : Error
  action_not_found action_conflict action_not_executable invalid_transition : Error
  account_not_found account_conflict account_invalid_request : Error
  authorization_session_invalid unsupported_provider : Error
  item_not_found item_input item_permission : Error
  version_conflict not_editable item_invalid_transition context_archived : Error
  creation_key_conflict candidate_already_tracked candidate_changed : Error
  attachment_unsupported attachment_exceeds_limit attachment_content_invalid : Error
  bootstrap_target_not_found bootstrap_identity_required owner_already_exists : Error
  bootstrap_conflict : Error
  credential_unavailable credential_reauthorization_required : Error
  credential_conflict unsupported_credential_provider : Error
  context_not_found context_conflict context_not_mutable invalid_context_transition : Error
  connector_message_content connector_attachment_metadata connector_unavailable : Error
  connector_invalid_cursor connector_message_not_found connector_unsupported_attachment : Error

pub data Result {ℓ} (A : Type ℓ) : Type ℓ where
  ok : A → Result A
  err : Error → Result A

infixl 5 ◌>>=◌
abbrev pub ◌>>=◌ {ℓ κ} : {A : Type ℓ} {B : Type κ} → Result A → (A → Result B) → Result B
ok a >>= f = f a
err e >>= f = err e

abbrev pub map_error {ℓ} : {A : Type ℓ} → (Error → Error) → Result A → Result A
map_error f (ok a) = ok a
map_error f (err e) = err (f e)

-- `except PersistenceError: raise ServiceUnavailableError`
abbrev pub hide_persistence : Error → Error
hide_persistence persistence = service_unavailable
hide_persistence duplicate_identity = service_unavailable
hide_persistence duplicate_account = service_unavailable
hide_persistence e = e

pub Result-cases {ℓ} :
    {A : Type ℓ} (r : Result A) → ((a : A) × (r ≡ ok a)) ⊎ ((e : Error) × (r ≡ err e))
Result-cases (ok a) = inl (a, refl)
Result-cases (err e) = inr (e, refl)

pub ok-eq {ℓ} : {A : Type ℓ} (a b : A) → ok a ≡ ok b → a ≡ b
ok-eq a b h = cc

-- The steps of a chain that has succeeded
pub >>=-eq-ok {ℓ κ} :
    {A : Type ℓ} {B : Type κ} (r : Result A) (f : A → Result B) (b : B)
    → (r >>= f) ≡ ok b
    → (a : A) × (r ≡ ok a) × (f a ≡ ok b)
>>=-eq-ok (ok a) f b h = (a, refl, h)
>>=-eq-ok (err e) f b h = absurd (cc)
