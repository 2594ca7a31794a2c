-- ===== src/Credentials/Creating.antt =====
-- `create` of app/infrastructure/credentials/memory.py: what it leaves in the store.

use enterprise_communication.Prelude.{
  ◌≡◌, refl, Bool, true, false, some, List, ◌∷◌, any, Bool-cases, inl, inr, arith,
}
use enterprise_communication.Text.{Text, text_eq, text_eq_iff, text_eq_refl}
use enterprise_communication.Errors.{ok, credential_conflict}
use enterprise_communication.Storage.Table.{select_first, select_first-none}
use enterprise_communication.Storage.UnitOfWork.{World, advance}
use enterprise_communication.Storage.Keeps.{
  Keeps, Stable, Keeps-lift, Keeps-raise, Keeps-pure, Keeps-bind, Keeps-statement,
}
use enterprise_communication.Storage.Yields.{
  Yields, Yields-pure, Yields-raise, Yields-bind, Yields-bind-lift, Yields-statement,
}
use enterprise_communication.Credentials.Store.{
  Secret, CommunicationCredentialRecord, Vault, has_ref, insert_record, created, create,
  require_credential_ref, require_supported_provider, require_secret_material,
}

-- A record that the store holds
abbrev pub Holds : CommunicationCredentialRecord → Vault → Type 0
Holds r v = select_first (has_ref r.credential_ref) v.records ≡ some r

-- An insert that is not refused puts its record beside those of other locators.
inserted_beside :
    (r old : CommunicationCredentialRecord) (rows : List CommunicationCredentialRecord)
    → any (has_ref r.credential_ref) rows ≡ false
    → select_first (has_ref old.credential_ref) rows ≡ some old
    → select_first (has_ref old.credential_ref) (r ∷ rows) ≡ some old
inserted_beside r old rows fresh held =
    elim (Bool-cases (text_eq r.credential_ref old.credential_ref)) [
      | inr other ↦ rw other held
      | inl same ↦ absurd (
          ground (
            arith,
            text_eq_iff r.credential_ref old.credential_ref,
            select_first-none (has_ref r.credential_ref) rows,
          ))
    ]

insert_record-Keeps :
    {R : (Vault → Vault) → Type 0} (r old : CommunicationCredentialRecord)
    → Stable R (Holds old)
    → Keeps R (Holds old) (insert_record r)
unfolding insert_record
insert_record-Keeps r old st = Keeps-statement st _ (λ v held.
    elim (Bool-cases (any (has_ref r.credential_ref) v.records)) [
      | inl taken ↦ rw taken held
      | inr fresh ↦ rw fresh (inserted_beside r old v.records fresh held)
    ])

-- What an insert that was done leaves
insert_record-Holds :
    (r : CommunicationCredentialRecord)
    → Yields
        (λ (w : World Vault). Unit {0})
        (insert_record r)
        (λ done w. done ≡ true → Holds r w.pending)
unfolding insert_record
insert_record-Holds r = Yields-statement _ (λ w _.
    elim (Bool-cases (any (has_ref r.credential_ref) (advance w).pending.records)) [
      | inl taken ↦ rw taken (λ e. absurd (cc))
      | inr fresh ↦ rw fresh (λ e. rw (text_eq_refl r.credential_ref) refl)
    ])

require_credential_ref-same :
    (ref locator : Text) → require_credential_ref ref ≡ ok locator → locator ≡ ref
unfolding require_credential_ref
require_credential_ref-same ref locator h = ground arith

module _ (lower : Text → Text) where
  -- What a call of the store has left, when it has returned
  abbrev pub Stored : Text → CommunicationCredentialRecord → World Vault → Type 0
  Stored ref c w = (c.credential_ref ≡ ref) × Holds c w.pending

  abbrev pub Anything : World Vault → Type 0
  Anything w = Unit {0}

  created-Keeps :
      {R : (Vault → Vault) → Type 0} {P : Vault → Type 0} (r : CommunicationCredentialRecord)
      (done : Bool)
      → Keeps R P (created r done)
  created-Keeps r true = Keeps-pure r
  created-Keeps r false = Keeps-raise credential_conflict

  pub create-Keeps :
      {R : (Vault → Vault) → Type 0} (version ref provider : Text) (secret : Secret)
      (old : CommunicationCredentialRecord)
      → Stable R (Holds old)
      → Keeps R (Holds old) (create lower version ref provider secret)
  unfolding create
  create-Keeps version ref provider secret old st =
      Keeps-bind _ _ (Keeps-lift (require_credential_ref ref)) (λ locator.
        Keeps-bind _ _ (Keeps-lift (require_supported_provider lower provider)) (λ slug.
          Keeps-bind _ _ (Keeps-lift (require_secret_material secret)) (λ material.
            Keeps-bind _ _ (insert_record-Keeps _ old st) (λ done. created-Keeps _ done))))

  created-Stored :
      (ref : Text) (r : CommunicationCredentialRecord) (done : Bool)
      → r.credential_ref ≡ ref
      → Yields (λ (w : World Vault). done ≡ true → Holds r w.pending) (created r done) (Stored ref)
  created-Stored ref r true same = Yields-pure r (λ w h. (same, h refl))
  created-Stored ref r false same = Yields-raise credential_conflict

  pub create-Stored :
      (version ref provider : Text) (secret : Secret)
      → Yields Anything (create lower version ref provider secret) (Stored ref)
  unfolding create
  create-Stored version ref provider secret =
      Yields-bind-lift (require_credential_ref ref) _ (λ locator e.
        Yields-bind-lift (require_supported_provider lower provider) _ (λ slug _.
          Yields-bind-lift (require_secret_material secret) _ (λ material _.
            Yields-bind (λ done w. done ≡ true → Holds _ w.pending) (insert_record _) _
              (insert_record-Holds _)
              (λ done. created-Stored ref _ done (require_credential_ref-same ref locator e)))))
