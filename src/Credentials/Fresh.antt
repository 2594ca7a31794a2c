-- ===== src/Credentials/Fresh.antt =====
-- `create_communication_credential` of app/infrastructure/credentials/locators.py: no stored record
-- is overwritten, and the new one stands under a generated locator.
use mathlib.Core.Path.{subst}
use enterprise_communication.Prelude.{ℕ, zero, suc, ◌+◌, ◌≤◌, ◌<◌, ◌≡◌, Bool-cases, inl, inr, arith}
use enterprise_communication.Text.{Text}
use enterprise_communication.Errors.{
  Result, ok, err, credential_unavailable, credential_conflict, unsupported_credential_provider,
}
use enterprise_communication.Storage.UnitOfWork.{World, Exec}
use enterprise_communication.Storage.Keeps.{
  Safe, Keeps, Stable, Keeps-lift, Keeps-raise, Keeps-bind, Keeps-if,
}
use enterprise_communication.Storage.Yields.{Yields, Yields-raise, Yields-bind-lift}
use enterprise_communication.Credentials.Store.{
  Secret, CommunicationCredentialRecord, Vault, is_valid_credential_ref, require_supported_provider,
  require_secret_material,
}
use enterprise_communication.Credentials.Locators.{
  next_or, try_create, create_attempts, create_communication_credential,
}
use enterprise_communication.Credentials.Creating.{
  Holds, Stored, Anything, create-Keeps, create-Stored,
}

zero-add : (n : ℕ) → 0 + n ≡ n
zero-add n = omega arith

module _ (lower : Text → Text) where
  module _ (generate versions : ℕ → Text) where
    next_or-Safe :
        {R : (Vault → Vault) → Type 0} {P : Vault → Type 0}
        (next : Exec Vault CommunicationCredentialRecord) (r : Result CommunicationCredentialRecord)
        (w : World Vault)
        → Keeps R P next
        → Safe R P w
        → Safe R P (next_or next r w).1
    next_or-Safe next (ok r) w k h = h
    next_or-Safe next (err credential_conflict) w k h = k.at w h
    next_or-Safe next (err unsupported_credential_provider) w k h = h
    next_or-Safe next (err _) w k h = h

    create_attempts-Keeps :
        {R : (Vault → Vault) → Type 0} (attempts i : ℕ) (slug : Text) (material : Secret)
        (old : CommunicationCredentialRecord)
        → Stable R (Holds old)
        → Keeps R (Holds old) (create_attempts lower generate versions attempts i slug material)
    unfolding create_attempts try_create
    create_attempts-Keeps zero i slug material old st = Keeps-raise credential_unavailable
    create_attempts-Keeps (suc attempts) i slug material old st =
        let rest = create_attempts-Keeps attempts (suc i) slug material old st in
        Keeps-if (is_valid_credential_ref (generate i)) _ _
          (record {
            at = λ w h.
                next_or-Safe _ _ _ rest
                  ((create-Keeps lower (versions i) (generate i) slug material old st).at w h);
          })
          (Keeps-raise credential_unavailable)

    -- The new record, under the locator of one of the attempts
    pub record IsFresh (first last : ℕ) (c : CommunicationCredentialRecord) (w : World Vault)
        : Type 0 where
      pub attempt : ℕ
      pub from : first ≤ attempt
      pub below : attempt < last
      pub located : c.credential_ref ≡ generate attempt
      pub held : Holds c w.pending

    sooner :
        (first last : ℕ) (c : CommunicationCredentialRecord) (w : World Vault)
        → IsFresh (suc first) last c w
        → IsFresh first last c w
    sooner first last c w f = record {
      attempt = f.attempt;
      from = omega (arith, f.from);
      below = f.below;
      located = f.located;
      held = f.held;
    }

    next_or-IsFresh :
        (i last : ℕ) (next : Exec Vault CommunicationCredentialRecord)
        (r : Result CommunicationCredentialRecord) (w : World Vault)
        → i < last
        → ((c : CommunicationCredentialRecord) → r ≡ ok c → Stored lower (generate i) c w)
        → Yields (Anything lower) next (IsFresh (suc i) last)
        → (c : CommunicationCredentialRecord) → (next_or next r w).0 ≡ ok c
        → IsFresh i last c (next_or next r w).1
    next_or-IsFresh i last next (ok r) w lt s y c e =
        let (located, held) = s c e in
        record { attempt = i; from = omega arith; below = lt; located = located; held = held }
    next_or-IsFresh i last next (err credential_conflict) w lt s y c e =
        sooner i last c (next w).1 (y.at w tt c e)
    next_or-IsFresh i last next (err unsupported_credential_provider) w lt s y c e = absurd (cc)
    next_or-IsFresh i last next (err _) w lt s y c e = absurd (cc)

    create_attempts-IsFresh :
        (attempts i : ℕ) (slug : Text) (material : Secret)
        → Yields
            (Anything lower)
            (create_attempts lower generate versions attempts i slug material)
            (IsFresh i (i + attempts))
    unfolding create_attempts try_create
    create_attempts-IsFresh zero i slug material = Yields-raise credential_unavailable
    create_attempts-IsFresh (suc attempts) i slug material =
        elim (Bool-cases (is_valid_credential_ref (generate i))) [
          | inr bad ↦ rw (bad, create_attempts) (Yields-raise credential_unavailable)
          | inl good ↦
              let last : suc i + attempts ≡ i + suc attempts = omega arith in
              let rest =
                subst
                  (λ n.
                    Yields (Anything lower)
                      (create_attempts lower generate versions attempts (suc i) slug material)
                      (IsFresh (suc i) n))
                  last (create_attempts-IsFresh attempts (suc i) slug material) in
              rw (good, create_attempts)
                (record {
                  at = λ w h.
                      next_or-IsFresh i (i + suc attempts) _ _ _ (omega arith)
                        (λ c e.
                          (create-Stored lower (versions i) (generate i) slug material).at w tt c e)
                        rest;
                })
        ]

    -- create_communication_credential overwrites no stored record: one that the others keep is
    -- still held behind it, whether it fails or not. When it returns, its record is held under the
    -- locator of one of its attempts, of which there are at most the given number.
    pub create_communication_credential-IsFresh :
        {R : (Vault → Vault) → Type 0} (max_attempts : ℕ) (provider : Text) (secret : Secret)
        (old : CommunicationCredentialRecord)
        → Stable R (Holds old)
        → Keeps R
            (Holds old)
            (create_communication_credential lower generate versions max_attempts provider secret)
          × Yields
              (Anything lower)
              (create_communication_credential lower generate versions max_attempts provider secret)
              (IsFresh 0 max_attempts)
    unfolding create_communication_credential
    create_communication_credential-IsFresh max_attempts provider secret old st = (
      Keeps-bind _ _ (Keeps-lift (require_supported_provider lower provider)) (λ slug.
          Keeps-bind _ _ (Keeps-lift (require_secret_material secret))
            (λ material. create_attempts-Keeps max_attempts 0 slug material old st)),
      Yields-bind-lift (require_supported_provider lower provider) _ (λ slug _.
          Yields-bind-lift (require_secret_material secret) _ (λ material _.
            subst
              (λ n.
                Yields (Anything lower)
                  (create_attempts lower generate versions max_attempts 0 slug material)
                  (IsFresh 0 n))
              (zero-add max_attempts) (create_attempts-IsFresh max_attempts 0 slug material))),
    )
