-- ===== src/Identity/Race.antt =====
-- Two runs of app/application/services/owner_bootstrap.py at once.
use mathlib.Core.Option
use enterprise_communication.Prelude.{
  ℕ, ◌+◌, ◌≤◌, ◌≡◌, refl, true, some, List, [], ◌∷◌, ◌==◌, any, ltb, arith, Bool-cases, inl, inr,
  ltb→lt,
}
use enterprise_communication.Errors.{ok}
use enterprise_communication.Storage.Table.{select_first, update_where, count_where}
use enterprise_communication.Storage.Db.{Db}
use enterprise_communication.Storage.UnitOfWork.{
  Turn, healthy, enter, statement, query, commit, leave, with_uow,
}
use enterprise_communication.Identity.Model.{user, User, ExternalIdentity}
use enterprise_communication.Identity.Bootstrap.{
  is_owner, has_user_id, is_promotable, made_owner, promoted, promote_first_owner,
}

-- The owners are those there were and those that the update makes.
owners-update :
    (now id : ℕ) (users : List User)
    → count_where is_owner (update_where (is_promotable id) (made_owner now) users)
      ≡ count_where is_owner users + count_where (is_promotable id) users
owners-update now id [] = refl
owners-update now id (u ∷ users) = elim (Bool-cases (is_promotable id u)) [
  | inl e ↦ rw e (ground (arith, owners-update now id users))
  | inr e ↦ rw e (ground (arith, owners-update now id users))
]

abbrev pub quiet : Turn Db
quiet = record { fault = healthy; others = λ s. s }

-- What another session has committed between the count and the conditional update
abbrev pub meanwhile : (Db → Db) → List (Turn Db)
meanwhile others = quiet ∷ quiet ∷ quiet ∷ quiet ∷ record { fault = healthy; others = others } ∷ []

abbrev pub owners : Db → ℕ
owners s = count_where is_owner s.users

pub record IsCandidate (id : ℕ) (s : Db) : Type 0 where
  pub known :
      Option.map (λ (u : User). u.application_role) (select_first (has_user_id id) s.users)
      ≡ some user
  pub mapped : any (λ (row : ExternalIdentity). row.user_id == id) s.identities ≡ true

-- For a mapped user, when there is no owner at the start and another session commits one after the
-- owners are counted, while the user stays promotable, promote_first_owner still reports a
-- promotion, and at least two owners are committed.
pub promote_first_owner-race :
    (now id : ℕ) (s : Db) (others : Db → Db)
    → IsCandidate id s
    → owners s ≡ 0
    → owners (others s) ≡ 1
    → ltb 0 (count_where (is_promotable id) (others s).users) ≡ true
    → let (result, w) =
        promote_first_owner now id
          (record { pending = s; durable = s; turns = meanwhile others }) in
      (result ≡ ok promoted) × (2 ≤ owners w.durable)
unfolding promote_first_owner with_uow enter query statement commit leave
promote_first_owner-race now id s others c none_yet won still =
    rw (c.known, c.mapped, none_yet, still)
      (refl, omega (arith, owners-update now id (others s).users, won, ltb→lt _ _ still))
