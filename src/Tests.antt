-- ===== src/Tests.antt =====
-- Concrete runs of the modelled code.
use enterprise_communication.Prelude.{
  ℕ, ◌≡◌, ◌≤◌, ◌↔◌, refl, Bool, true, Option, none, some, List, [], ◌∷◌, arith, ◌==◌,
}
use enterprise_communication.Text.{Text, text}
use enterprise_communication.Errors.{ok, err, invalid_transition}
use enterprise_communication.Identity.Model.{AuthenticatedPrincipal, ExternalIdentity}
use enterprise_communication.Accounts.Model.{ConnectorAccount}
use enterprise_communication.Accounts.Capabilities.{
  mail_read, mail_send, StoredGrants, stored, normal, serialize_communication_capabilities,
  parse_stored_communication_capabilities, parse-serialize,
}
use enterprise_communication.Storage.Table.{count_where}
use enterprise_communication.Storage.Db.{Db, no_rows}
use enterprise_communication.Storage.Keeps.{Safe}
use enterprise_communication.Storage.Yields.{Yields}
use enterprise_communication.Storage.UnitOfWork.{World, Turn, healthy, failed, lost}
use enterprise_communication.Sessions.Model.{gmail}
use enterprise_communication.Sessions.Repository.{is_valid, consume}
use enterprise_communication.Sessions.SingleUse.{consume-used}
use enterprise_communication.Workflow.Model.{
  WorkflowAction, reply, pending, approved, executing, executed, validate_lifecycle, mark_executing,
}
use enterprise_communication.Workflow.Lifecycle.{
  IsConsistent, SameOrigin, starting, finishing, perform, target, validate_lifecycle_exact,
  perform_refused, perform_target, perform-IsConsistent,
}
use enterprise_communication.Workflow.Begun.{Unique, Begun, IsHonest}
use enterprise_communication.Workflow.Execution.{
  CommunicationActionExecution, ExecutorOutcome, delivered, commit_executing,
}
use enterprise_communication.Workflow.Requests.{
  Request, creating, rejecting, executing as executing_request, AllUnique, Begun-IsKept, serve,
  serve_all, serve_keeps,
}
use enterprise_communication.Workflow.Starting.{Started, commit_executing-Started}
use enterprise_communication.Workflow.Refusing.{Underway, commit_executing_refused}
use enterprise_communication.Workflow.AtMostOnce.{sends, at_most_once}

abbrev pub owner : AuthenticatedPrincipal
owner = record { issuer = text "issuer"; subject = text "subject"; permissions = [] }

abbrev identity_row : ExternalIdentity
identity_row = record { id = 1; user_id = 2; issuer = text "issuer"; subject = text "subject" }

abbrev pub mailbox : ConnectorAccount
mailbox = record {
  id = 3;
  user_id = 2;
  provider = text "gmail";
  external_account_id = text "a@b.c";
  credential_ref = some (text "ref");
  status = enterprise_communication.Accounts.Model.ConnectorAccountStatus.active;
  granted_capabilities = StoredGrants.null;
  display_identity = none;
  created_at = 0;
  updated_at = 0;
}

abbrev pub approved_reply : WorkflowAction
approved_reply = record {
  id = 7;
  action_type = reply;
  analysis_id = 4;
  owner_user_id = 2;
  proposed_reply_body = text "yes";
  status = approved;
  created_at = 1;
  approved_at = some 2;
  rejected_at = none;
  executed_at = none;
  failed_at = none;
  approved_reply_body = some (text "yes");
  connector_account_id = some 3;
  provider_message_id = some (text "m");
}

abbrev executing_reply : WorkflowAction
executing_reply = record approved_reply { status = executing }

abbrev pub rows : Db
rows = record no_rows {
  identities = identity_row ∷ [];
  accounts = mailbox ∷ [];
  actions = approved_reply ∷ [];
}

abbrev begun_rows : Db
begun_rows = record rows { actions = executing_reply ∷ [] }

abbrev idle : Turn Db
idle = record { fault = healthy; others = λ s. s }

-- The confirmation of a commit is lost, and a later statement fails.
abbrev unlucky : List (Turn Db)
unlucky =
    idle
    ∷ idle
    ∷ idle
    ∷ idle
    ∷ idle
    ∷ idle
    ∷ idle
    ∷ record { fault = lost; others = λ s. s }
    ∷ record { fault = failed; others = λ s. s }
    ∷ []

abbrev start : World Db
start = record { pending = rows; durable = rows; turns = [] }

abbrev pub resolves_all : Text → Text → Bool
resolves_all ref provider = true

abbrev pub delivers : CommunicationActionExecution → ExecutorOutcome
delivers command = delivered

abbrev twice : List Request
twice =
    rejecting 8 owner 7
    ∷ executing_request 9 owner 7
    ∷ executing_request 10 owner 7
    ∷ creating 11 12 owner 4
    ∷ []

pub one_action :
    (id : ℕ) (a : WorkflowAction)
    → count_where (λ (row : WorkflowAction). row.id == id) (a ∷ []) ≤ 1
one_action id a = ground arith

idle_IsHonest : IsHonest (λ s. s)
idle_IsHonest = record { unique = λ id s h. h; begun = λ id s h. h }

start-Safe : Safe IsHonest AllUnique (record start { turns = unlucky })
start-Safe = record {
  pending = λ id. one_action id approved_reply;
  durable = λ id. one_action id approved_reply;
  rely = (
    idle_IsHonest,
    (
      idle_IsHonest,
      (
        idle_IsHonest,
        (
          idle_IsHonest,
          (idle_IsHonest, (idle_IsHonest, (idle_IsHonest, (idle_IsHonest, (idle_IsHonest, tt))))),
        ),
      ),
    ),
  );
}

at_most_once_example :
    sends 7 (serve_all resolves_all delivers twice (record start { turns = unlucky })) ≤ 1
at_most_once_example =
    at_most_once resolves_all delivers 7 twice (record start { turns = unlucky }) start-Safe

commit_executing-Started_example :
    Yields (Safe IsHonest (Unique 7)) (commit_executing resolves_all 2 7) (Started 7)
commit_executing-Started_example = commit_executing-Started 7 resolves_all 2

commit_executing_refused_example :
    Yields (Safe IsHonest (Underway 7)) (commit_executing resolves_all 2 7) (λ c w. ⊥)
commit_executing_refused_example = commit_executing_refused 7 2 resolves_all

begun-Safe : Safe IsHonest (Begun 7) (record start { pending = begun_rows; durable = begun_rows })
begun-Safe = record { pending = refl; durable = refl; rely = tt }

serve_keeps_example :
    Safe IsHonest
      (Begun 7)
      (serve resolves_all delivers
        (executing_request 9 owner 7)
        (record start { pending = begun_rows; durable = begun_rows })).1
serve_keeps_example =
    serve_keeps resolves_all delivers (Begun 7) (Begun-IsKept 7) (executing_request 9 owner 7)
      (record start { pending = begun_rows; durable = begun_rows }) begun-Safe

validate_lifecycle_exact_example :
    (validate_lifecycle true executing_reply ≡ ok executing_reply) ↔ IsConsistent executing_reply
validate_lifecycle_exact_example = validate_lifecycle_exact executing_reply

abbrev executed_reply : WorkflowAction
executed_reply = record executing_reply { status = executed; executed_at = some 9 }

finished : perform finishing 9 executing_reply ≡ ok executed_reply
unfolding enterprise_communication.Workflow.Model.mark_executed
finished = refl

executing_reply-IsConsistent : IsConsistent executing_reply
executing_reply-IsConsistent = record {
  body = refl;
  approval = refl;
  rejection = refl;
  execution = refl;
  failure = refl;
  target = refl;
}

perform-IsConsistent_example : IsConsistent executed_reply
perform-IsConsistent_example =
    perform-IsConsistent finishing 9 executing_reply executed_reply executing_reply-IsConsistent
      finished

perform_target_example :
    (executed_reply.status ≡ target finishing) × SameOrigin executing_reply executed_reply
perform_target_example = perform_target finishing 9 executing_reply executed_reply finished

perform_refused_example : perform starting 9 executing_reply ≡ err invalid_transition
perform_refused_example = perform_refused starting 9 executing_reply refl

parse-serialize_example :
    (ts : Option (List Text)) × (serialize_communication_capabilities
        (some (mail_send ∷ mail_read ∷ mail_send ∷ []))
      ≡ ok ts)
    × (parse_stored_communication_capabilities (stored ts)
        ≡ ok (normal (some (mail_send ∷ mail_read ∷ mail_send ∷ []))))
parse-serialize_example = parse-serialize (some (mail_send ∷ mail_read ∷ mail_send ∷ []))

consume-used_example :
    Yields
      (λ w. Unit {0})
      (consume (text "hash") gmail 5)
      (λ rows w. count_where (is_valid (text "hash") gmail 6) w.pending.sessions ≡ 0)
consume-used_example = consume-used (text "hash") gmail 5 6 (omega arith)
