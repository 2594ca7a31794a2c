-- ===== src/ServiceTests.antt =====
-- Concrete runs of the access token cache, of the owner bootstrap, and of an undisturbed delivery.
use enterprise_communication.Prelude.{
  ℕ, ◌+◌, ◌≡◌, ◌≤◌, refl, true, none, some, List, [], ◌∷◌, arith, length, ltb,
}
use enterprise_communication.Text.{text}
use enterprise_communication.Errors.{ok}
use enterprise_communication.Storage.Table.{count_where, update_where}
use enterprise_communication.Storage.Db.{Db, no_rows}
use enterprise_communication.Credentials.TokenCache.{Key, CachedToken, get_usable, put, invalidate}
use enterprise_communication.Credentials.Refinement.{
  Op, getting, putting, invalidating, run, replay, IsAnswer, get_usable-run,
}
use enterprise_communication.Credentials.Capacity.{run_bounded, get_usable-put}
use enterprise_communication.Identity.Model.{user, User, ExternalIdentity}
use enterprise_communication.Identity.Bootstrap.{
  is_promotable, made_owner, promoted, promote_first_owner,
}
use enterprise_communication.Identity.Race.{
  meanwhile, owners, IsCandidate, promote_first_owner-race,
}

abbrev gmail_key : Key
gmail_key = record { provider = text "gmail"; locator = text "a" }

abbrev graph_key : Key
graph_key = record { provider = text "graph"; locator = text "b" }

abbrev token_until : ℕ → CachedToken
token_until t = record { token = text "token"; expires_at = t }

abbrev calls : List Op
calls =
    putting gmail_key (token_until 50)
    ∷ putting graph_key (token_until 60)
    ∷ getting gmail_key 10 5
    ∷ invalidating (text "b")
    ∷ []

still_usable : (get_usable gmail_key 20 5 (run 2 calls [])).0 ≡ some (text "token")
unfolding get_usable put invalidate
still_usable = refl

get_usable-run_example : IsAnswer (replay calls (λ _. none)) gmail_key (20 + 5) (text "token")
get_usable-run_example = get_usable-run 2 calls gmail_key 20 5 (text "token") still_usable

run_bounded_example : length (run 1 calls []) ≤ 1
run_bounded_example = run_bounded 1 calls [] (omega arith)

get_usable-put_example :
    (get_usable gmail_key 20 5
      (put 1 gmail_key (token_until 50) ((graph_key, token_until 60) ∷ []))).0
    ≡ some (text "token")
get_usable-put_example =
    get_usable-put 1 gmail_key (token_until 50) 20 5 ((graph_key, token_until 60) ∷ [])
      (omega arith) (omega arith)

abbrev member_with : ℕ → User
member_with id = record { id = id; application_role = user; updated_at = 0 }

abbrev identity_of : ℕ → ExternalIdentity
identity_of id = record { id = id; user_id = id; issuer = text "issuer"; subject = text "subject" }

abbrev two_users : Db
two_users = record no_rows {
  users = member_with 1 ∷ member_with 2 ∷ [];
  identities = identity_of 1 ∷ identity_of 2 ∷ [];
}

-- The other session runs the same command for the user 2.
abbrev other_session : Db → Db
other_session s = record s { users = update_where (is_promotable 2) (made_owner 9) s.users }

two_users-IsCandidate : IsCandidate 1 two_users
two_users-IsCandidate = record { known = refl; mapped = refl }

none_yet : owners two_users ≡ 0
none_yet = refl

one_then : owners (other_session two_users) ≡ 1
one_then = refl

still_user : ltb 0 (count_where (is_promotable 1) (other_session two_users).users) ≡ true
still_user = refl

promote_first_owner-race_example :
    let (result, w) =
      promote_first_owner 8 1
        (record { pending = two_users; durable = two_users; turns = meanwhile other_session }) in
    (result ≡ ok promoted) × (2 ≤ owners w.durable)
promote_first_owner-race_example =
    promote_first_owner-race 8 1 two_users other_session two_users-IsCandidate none_yet one_then
      still_user
