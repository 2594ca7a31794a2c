-- ===== src/Workflow/Requests.antt =====
-- The calls of the workflow services that write, one after another.

use enterprise_communication.Prelude.{ℕ, ◌≡◌, Bool, true, List, [], ◌∷◌, ◌++◌}
use enterprise_communication.Errors.{Result, ok, err}
use enterprise_communication.Text.{Text}
use enterprise_communication.Identity.Model.{AuthenticatedPrincipal}
use enterprise_communication.Accounts.Model.{ConnectorAccount}
use enterprise_communication.Accounts.Repository.{update_accounts}
use enterprise_communication.Storage.Db.{Db}
use enterprise_communication.Storage.Keeps.{Safe, Stable, Keeps}
use enterprise_communication.Storage.UnitOfWork.{World, Exec}
use enterprise_communication.Workflow.Model.{WorkflowAction, WorkflowActionStatus}
use enterprise_communication.Workflow.Repository.{insert_action, update_lifecycle}
use enterprise_communication.Workflow.Begun.{
  is_begun, Unique, Begun, IsHonest, Unique-stable, Begun-stable, update_lifecycle-Unique,
  insert_action-Unique, insert_action-Begun, update_lifecycle-Begun,
}
use enterprise_communication.Workflow.Service.{create, approve_action, reject_action}
use enterprise_communication.Workflow.Guarantee
use enterprise_communication.Workflow.Starting.{update_accounts-Unique, update_accounts-Begun}
use enterprise_communication.Workflow.Refusing.{Underway, Underway-stable}
use enterprise_communication.Workflow.Execution.{
  CommunicationActionExecution, ExecutorOutcome, deliver, execute, Run,
}

-- A call of one of the service methods that write; `now` is what the clock says then.
pub data Request : Type 0 where
  creating : (now new_id : ℕ) (principal : AuthenticatedPrincipal) (analysis_id : ℕ) → Request
  approving rejecting : (now : ℕ) (principal : AuthenticatedPrincipal) (action_id : ℕ) → Request
  executing : (now : ℕ) (principal : AuthenticatedPrincipal) (action_id : ℕ) → Request

-- What the updates of single rows keep.
pub record IsKept (P : Db → Type 0) : Type 0 where
  pub stable : Stable IsHonest P
  pub inserts : (a : WorkflowAction) → Keeps IsHonest P (insert_action a)
  pub updates :
      (a : WorkflowAction) (e : WorkflowActionStatus)
      → (is_begun e ≡ true → is_begun a.status ≡ true)
      → Keeps IsHonest P (update_lifecycle a e)
  pub accounts :
      (p : ConnectorAccount → Bool) (f : ConnectorAccount → ConnectorAccount)
      → Keeps IsHonest P (update_accounts p f)

pub Begun-IsKept : (id : ℕ) → IsKept (Begun id)
Begun-IsKept id = record {
  stable = Begun-stable id;
  inserts = insert_action-Begun id;
  updates = update_lifecycle-Begun id;
  accounts = update_accounts-Begun id;
}

pub Unique-IsKept : (id : ℕ) → IsKept (Unique id)
Unique-IsKept id = record {
  stable = Unique-stable id;
  inserts = insert_action-Unique id;
  updates = λ a e _. update_lifecycle-Unique id a e;
  accounts = update_accounts-Unique id;
}

both :
    {A : Type 0} (id : ℕ) (m : Exec Db A)
    → Keeps IsHonest (Unique id) m
    → Keeps IsHonest (Begun id) m
    → Keeps IsHonest (Underway id) m
both id m ku kb = record {
  at = λ w h.
      let u = ku.at w (record { pending = h.pending.0; durable = h.durable.0; rely = h.rely }) in
      let b = kb.at w (record { pending = h.pending.1; durable = h.durable.1; rely = h.rely }) in
      record { pending = (u.pending, b.pending); durable = (u.durable, b.durable); rely = u.rely };
}

pub Underway-IsKept : (id : ℕ) → IsKept (Underway id)
Underway-IsKept id = record {
  stable = Underway-stable id;
  inserts = λ a. both id _ (insert_action-Unique id a) (insert_action-Begun id a);
  updates = λ a e f. both id _ (update_lifecycle-Unique id a e) (update_lifecycle-Begun id a e f);
  accounts = λ p f. both id _ (update_accounts-Unique id p f) (update_accounts-Begun id p f);
}

-- No two actions have one id.
abbrev pub AllUnique : Db → Type 0
AllUnique s = (id : ℕ) → Unique id s

pub one_of : (id : ℕ) (w : World Db) → Safe IsHonest AllUnique w → Safe IsHonest (Unique id) w
one_of id w h = record { pending = h.pending id; durable = h.durable id; rely = h.rely }

for_all :
    {A : Type 0} (m : Exec Db A)
    → ((id : ℕ) → Keeps IsHonest (Unique id) m)
    → Keeps IsHonest AllUnique m
for_all m k = record {
  at = λ w h. record {
    pending = λ id. ((k id).at w (one_of id w h)).pending;
    durable = λ id. ((k id).at w (one_of id w h)).durable;
    rely = ((k 0).at w (one_of 0 w h)).rely;
  };
}

pub AllUnique-IsKept : IsKept AllUnique
AllUnique-IsKept = record {
  stable = record { keeps = λ g h s u id. h.unique id s (u id) };
  inserts = λ a. for_all _ (λ id. insert_action-Unique id a);
  updates = λ a e _. for_all _ (λ id. update_lifecycle-Unique id a e);
  accounts = λ p f. for_all _ (λ id. update_accounts-Unique id p f);
}

module _ (resolves : Text → Text → Bool)
    (executor : CommunicationActionExecution → ExecutorOutcome) where
  abbrev pub answered :
      {A : Type 0} → Result A × World Db → List CommunicationActionExecution × World Db
  answered (r, w) = ([], w)

  abbrev pub of_run : Run → List CommunicationActionExecution × World Db
  of_run run = (run.sent, run.world)

  -- The commands that a request hands to an executor, and the world behind it.
  abbrev pub serve : Request → World Db → List CommunicationActionExecution × World Db
  serve (creating now new_id p k) w = answered (create now new_id p k w)
  serve (approving now p k) w = answered (approve_action now p k w)
  serve (rejecting now p k) w = answered (reject_action now p k w)
  serve (executing now p k) w = of_run (execute resolves executor now k p w)

  abbrev pub serve_all : List Request → World Db → List CommunicationActionExecution
  serve_all [] w = []
  serve_all (r ∷ rs) w = let (sent, w') = serve r w in sent ++ serve_all rs w'

  module _ (P : Db → Type 0) (k : IsKept P) where
    pub deliver_keeps :
        (now id : ℕ) (r : Result (ℕ × CommunicationActionExecution)) (w : World Db)
        → Safe IsHonest P w
        → Safe IsHonest P (deliver resolves executor now id r w).world
    unfolding deliver
    deliver_keeps now id (err e) w h = h
    deliver_keeps now id (ok (u, c)) w h =
        (Guarantee.record_outcome-Keeps P k.stable k.inserts k.updates k.accounts now (executor c) u
            c id).at
          w h

    -- A create, approve, reject or execute call keeps every property of the tables that the
    -- inserts and conditional updates of single rows and the other sessions keep, whichever
    -- statements fail.
    pub serve_keeps :
        (r : Request) (w : World Db) → Safe IsHonest P w → Safe IsHonest P (serve r w).1
    unfolding approve_action reject_action execute
    serve_keeps (creating now n p a) w h =
        (Guarantee.create-Keeps P k.stable k.inserts k.updates k.accounts now n p a).at w h
    serve_keeps (approving now p a) w h =
        (Guarantee.transition_pending-Keeps P k.stable k.inserts k.updates k.accounts _ p a).at w h
    serve_keeps (rejecting now p a) w h =
        (Guarantee.transition_pending-Keeps P k.stable k.inserts k.updates k.accounts _ p a).at w h
    serve_keeps (executing now p a) w h = deliver_keeps now a _ _ (
        (Guarantee.prepare-Keeps P k.stable k.inserts k.updates k.accounts resolves executor now a
            p).at
          w h)
