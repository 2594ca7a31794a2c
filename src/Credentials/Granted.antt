-- ===== src/Credentials/Granted.antt =====
-- The tokens that `_acquire_locked` of app/infrastructure/credentials/oauth.py returns.
use mathlib.Core.Path.{subst}
use mathlib.Core.List.{Mem}
use enterprise_communication.Prelude.{
  ℕ, ◌<◌, ◌≡◌, refl, sym, ap, ◌∙◌, Option, none, some, List, arith,
}
use enterprise_communication.Text.{Text, text_eq_iff}
use enterprise_communication.Errors.{ok, credential_unavailable, ok-eq}
use enterprise_communication.Storage.UnitOfWork.{World, Exec, ◌>>=◌, catch, advance}
use enterprise_communication.Storage.Yields.{
  Yields, Yields-pure, Yields-raise, Yields-bind, Yields-bind-lift, Yields-catch,
}
use enterprise_communication.Storage.Table.{select_first, select_first-holds}
use enterprise_communication.Storage.Returned.{returned, >>=-assoc, select_first-Mem, Yields-query}
use enterprise_communication.Credentials.TokenCache.{Key}
use enterprise_communication.Credentials.Store.{
  CommunicationCredentialRecord, Vault, hide_backend, get, has_ref, require_credential_ref,
}
use enterprise_communication.Credentials.Answered.{IsAnswer, acquire_from_record-Grants}
use enterprise_communication.Credentials.Resolver.{
  Adapter, read_record, found, acquire_from_record, or_unavailable, or_retry, acquire_locked,
}

require_credential_ref-same :
    (ref locator : Text) → require_credential_ref ref ≡ ok locator → ref ≡ locator
unfolding require_credential_ref
require_credential_ref-same ref locator h = ground arith

-- What a call of the store answers that has returned, under the requested locator
get-answers :
    (locator : Text) (start : World Vault)
    → Yields
        (λ w. w ≡ start)
        (get locator)
        (λ o w. o ≡ select_first (has_ref locator) (advance start).pending.records)
unfolding get
get-answers locator start = Yields-bind-lift (require_credential_ref locator) _ (λ checked e.
    rw (require_credential_ref-same locator checked e) (
      Yields-query (λ (v : Vault). select_first (has_ref checked) v.records)
        (λ w same.
          ap (λ (v : World Vault). select_first (has_ref checked) (advance v).pending.records)
            same)))

found-Mem :
    (locator : Text) (start : World Vault) (o : Option CommunicationCredentialRecord)
    → Yields
        (λ (w : World Vault). o ≡ select_first (has_ref locator) (advance start).pending.records)
        (found o)
        (λ r w. Mem r (advance start).pending.records × (r.credential_ref ≡ locator))
found-Mem locator start none = Yields-raise credential_unavailable
found-Mem locator start (some r) = Yields-pure r (λ w h.
    let rows : List CommunicationCredentialRecord = (advance start).pending.records in
    (
      select_first-Mem (has_ref locator) rows r (sym h),
      (text_eq_iff r.credential_ref locator).0
          (select_first-holds (has_ref locator) rows r (sym h)),
    ))

-- A record that is read stands in the store under the locator.
read_record-Mem :
    (locator : Text) (start : World Vault) (r : CommunicationCredentialRecord)
    → (read_record locator start).0 ≡ ok r
    → Mem r (advance start).pending.records × (r.credential_ref ≡ locator)
unfolding read_record
read_record-Mem locator start r h =
    (Yields-bind _ (catch hide_backend (get locator)) found
        (Yields-catch hide_backend (get locator) (get-answers locator start))
        (found-Mem locator start)).at
      start refl r h

module _ (max_entries skew : ℕ) (clock : ℕ → ℕ) (adapters : ℕ → Text → Option Adapter)
    (versions : ℕ → Text) where
  -- An attempt: what it reads, and what comes of it
  abbrev attempted : ℕ → Key → Exec Vault (Option Text)
  attempted i key = read_record key.locator >>= λ r.
      acquire_from_record max_entries skew clock adapters versions i key r

  -- When an attempt reads the store: the first at the start, the other after the first one has
  -- lost against another writer.
  pub data Attempt (key : Key) (start : World Vault) : ℕ → World Vault → Type 0 where
    first : Attempt key start 0 start
    second : (attempted 0 key start).0 ≡ ok none → Attempt key start 1 (attempted 0 key start).1

  pub record IsGranted (key : Key) (start : World Vault) (token : Text) (w : World Vault)
      : Type 0 where
    pub attempt : ℕ
    pub reading : World Vault
    pub turn : Attempt key start attempt reading
    pub source : CommunicationCredentialRecord
    pub stored : Mem source (advance reading).pending.records
    pub named : source.credential_ref ≡ key.locator
    pub answer : IsAnswer max_entries skew clock adapters versions key attempt source token w

  attempted-IsGranted :
      (key : Key) (start reading : World Vault) (i : ℕ)
      → 0 < max_entries
      → Attempt key start i reading
      → (token : Text) → (attempted i key reading).0 ≡ ok (some token)
      → IsGranted key start token (attempted i key reading).1
  attempted-IsGranted key start reading i room turn token h =
      let (r, read, given, same) =
        returned (read_record key.locator)
          (λ r. acquire_from_record max_entries skew clock adapters versions i key r) reading
          (some token) h in
      let (stored, named) = read_record-Mem key.locator reading r read in
      record {
        attempt = i;
        reading = reading;
        turn = turn;
        source = r;
        stored = stored;
        named = named;
        answer =
            subst (IsAnswer max_entries skew clock adapters versions key i r token)
              (ap (λ p. p.1) (sym same))
              ((acquire_from_record-Grants max_entries skew clock adapters versions i key r room).at
                (read_record key.locator reading).1 tt (some token) given token refl);
      }

  or_unavailable-some :
      (o : Option Text) (w : World Vault) (token : Text)
      → (or_unavailable max_entries skew clock adapters versions o w).0 ≡ ok token
      → (o ≡ some token) × ((or_unavailable max_entries skew clock adapters versions o w).1 ≡ w)
  or_unavailable-some none w token h = absurd (cc)
  or_unavailable-some (some t) w token h = (ap some (ok-eq t token h), refl)

  or_retry-IsGranted :
      (key : Key) (start : World Vault)
      → 0 < max_entries
      → (o : Option Text) → (attempted 0 key start).0 ≡ ok o
      → (token : Text)
      → (or_retry max_entries skew clock adapters versions key o (attempted 0 key start).1).0
        ≡ ok token
      → IsGranted key start token
          (or_retry max_entries skew clock adapters versions key o (attempted 0 key start).1).1
  or_retry-IsGranted key start room (some found) h token e =
      attempted-IsGranted key start start 0 room first token
        (h ∙ ap (λ t. ok (some t)) (ok-eq found token e))
  or_retry-IsGranted key start room none h token e =
      let again : World Vault = (attempted 0 key start).1 in
      let give : Option Text → Exec Vault Text =
        or_unavailable max_entries skew clock adapters versions in
      let split =
        >>=-assoc (read_record key.locator)
          (λ r. acquire_from_record max_entries skew clock adapters versions 1 key r) give again in
      let (o, got, given, same) =
        returned (attempted 1 key) give again token (ap (λ p. p.0) split ∙ e) in
      let (some_token, stays) = or_unavailable-some o (attempted 1 key again).1 token given in
      subst (IsGranted key start token) (sym (ap (λ p. p.1) (sym split ∙ same) ∙ stays))
        (attempted-IsGranted key start again 1 room (second h) token (got ∙ ap ok some_token))

  -- When _acquire_locked returns a token, with a cache that may hold an entry, the token is the
  -- answer, stripped and not empty, of an adapter of the provider, asked with the secret of a
  -- record of this provider that the store held under the locator of the key: at the start of the
  -- first attempt, or, where that one has lost against another writer, of the second. It outlives
  -- the time of the check by more than the skew, and the cache then answers it. Statements may
  -- fail, and other sessions may write.
  pub acquire_locked-IsGranted :
      (key : Key) (start : World Vault) (token : Text)
      → 0 < max_entries
      → (acquire_locked max_entries skew clock adapters versions key start).0 ≡ ok token
      → IsGranted key start token
          (acquire_locked max_entries skew clock adapters versions key start).1
  unfolding acquire_locked
  acquire_locked-IsGranted key start token room h =
      let retry : Option Text → Exec Vault Text =
        or_retry max_entries skew clock adapters versions key in
      let split =
        >>=-assoc (read_record key.locator)
          (λ r. acquire_from_record max_entries skew clock adapters versions 0 key r) retry start in
      let (o, got, given, same) =
        returned (attempted 0 key) retry start token (ap (λ p. p.0) split ∙ h) in
      subst (IsGranted key start token) (sym (ap (λ p. p.1) (sym split ∙ same)))
        (or_retry-IsGranted key start room o got token given)
