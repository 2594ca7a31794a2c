-- ===== src/Sessions/SingleUse.antt =====
-- The conditional update of `consume_valid` in
-- app/infrastructure/storage/repositories/mailbox_authorization_session.py.
use enterprise_communication.Prelude.{
  ℕ, ◌≡◌, ◌≤◌, ◌∷◌, refl, some, List, [], arith, Bool-cases, inl, inr,
}
use enterprise_communication.Text.{Text}
use enterprise_communication.Storage.Table.{count_where, update_where}
use enterprise_communication.Storage.UnitOfWork.{advance}
use enterprise_communication.Storage.Yields.{Yields, Yields-statement}
use enterprise_communication.Sessions.Model.{
  MailboxAuthorizationProvider, MailboxAuthorizationSession,
}
use enterprise_communication.Sessions.Repository.{is_valid, consume}

none_valid :
    (h : Text) (p : MailboxAuthorizationProvider) (now later : ℕ)
    (rows : List MailboxAuthorizationSession)
    → now ≤ later
    → count_where
        (is_valid h p later)
        (update_where (is_valid h p now) (λ row. record row { consumed_at = some now }) rows)
      ≡ 0
none_valid h p now later [] le = refl
none_valid h p now later (r ∷ rows) le = elim (Bool-cases (is_valid h p now r)) [
  | inl e ↦ rw e (ground (arith, none_valid h p now later rows le))
  | inr e ↦ rw e (ground (arith, none_valid h p now later rows le))
]

-- The conditional update that consumes an authorization session leaves none that the same state
-- and provider could consume then or later.
pub consume-used :
    (state_hash : Text) (provider : MailboxAuthorizationProvider) (now later : ℕ)
    → now ≤ later
    → Yields
        (λ w. Unit {0})
        (consume state_hash provider now)
        (λ rows w. count_where (is_valid state_hash provider later) w.pending.sessions ≡ 0)
unfolding consume
consume-used state_hash provider now later le =
    Yields-statement _
      (λ w _. none_valid state_hash provider now later (advance w).pending.sessions le)
