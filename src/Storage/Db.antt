-- ===== src/Storage/Db.antt =====
-- The tables that the modelled repositories read and write.
use enterprise_communication.Prelude.{List, []}
use enterprise_communication.Analyses.{Analysis}
use enterprise_communication.Accounts.Model.{ConnectorAccount}
use enterprise_communication.Identity.Model.{User, ExternalIdentity}
use enterprise_communication.Contexts.Model.{BusinessContext}
use enterprise_communication.Sessions.Model.{MailboxAuthorizationSession}
use enterprise_communication.WorkItems.Model.{BusinessWorkItem, WorkItemEvent}
use enterprise_communication.Workflow.Model.{WorkflowAction}

pub record Db : Type 0 where
  pub users : List User
  pub identities : List ExternalIdentity
  pub analyses : List Analysis
  pub accounts : List ConnectorAccount
  pub sessions : List MailboxAuthorizationSession
  pub actions : List WorkflowAction
  pub contexts : List BusinessContext
  pub items : List BusinessWorkItem
  pub item_events : List WorkItemEvent

abbrev pub no_rows : Db
no_rows = record {
  users = [];
  identities = [];
  analyses = [];
  accounts = [];
  sessions = [];
  actions = [];
  contexts = [];
  items = [];
  item_events = [];
}
