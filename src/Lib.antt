-- ===== src/Lib.antt =====
-- Verification of the core of the enterprise communication platform: approval-gated replies, the
-- storage sessions below them, identities and the first owner, mailbox accounts and
-- their authorization sessions, business work items, the policy on attachments,
-- the protocol of the malware scanner, the credentials of mailboxes with the cache of access
-- tokens and its locks, the business contexts, and the
-- attachments and pages of the mail connectors.
--
-- The parts and their code:
--   Prelude, Text, Errors: shared helpers; Text has app/domain/models/validation.py, Errors the
--     exceptions of app/core/exceptions.py, app/domain/exceptions.py and
--     app/application/exceptions.py.
--   Storage: Storage/UnitOfWork is app/infrastructure/storage/unit_of_work.py, as a state and
--     exception monad. Each call of the driver takes a turn: whether it fails, and what other
--     sessions have committed since the last one. Storage/Table has the statements on a table as a
--     list of rows, Storage/Db the tables. Storage/Keeps, Storage/Yields and Storage/Returned are
--     the proof rules: what every action keeps, and what holds when an action has returned.
--   Identity: app/application/services/identity.py with its repository.
--   Accounts: app/domain/models/capabilities.py and
--     app/infrastructure/storage/repositories/connector_account.py.
--     Accounts/Service and Accounts/Disconnection are
--     app/application/services/connector_accounts.py; Loaded says what its reads have found.
--   Sessions: app/application/services/mailbox_authorization_sessions.py with its repository.
--   Workflow: Workflow/Model is app/domain/models/workflow.py, Workflow/Repository
--     app/infrastructure/storage/repositories/workflow_action.py, Workflow/Service
--     app/application/services/workflow_actions.py, Workflow/Execution
--     app/application/services/workflow_action_execution.py. Begun, Guarantee, Sending, Starting,
--     Refusing, Requests and AtMostOnce lead to the theorem on commands.
--     Delivering, Delivered and Completed follow it in a run that nothing disturbs.
--   WorkItems: Model and Aggregate are app/domain/models/business_work_item.py, Repository is a part
--     of app/infrastructure/storage/repositories/business_work_item.py and of
--     app/application/services/work_items.py. Written, Checked and Outcomes say what its writes
--     leave.
--   Attachments: Clamd is app/infrastructure/attachments/clamav_protocol.py with the receiving loop
--     and the scan of clamav_scanner.py beside it; Model, Archive, Names, Signatures, Policy and
--     Budget are app/domain/attachment_policy.py. The zip directory, the XML reader, the decoders
--     of bytes and the lower case of texts are fields of the parameter Platform.
--   Credentials: TokenCache is the token cache of app/infrastructure/credentials/oauth.py, a list of
--     its items in order of use, and Resolver its _provide_access_token with what it calls. Store is
--     app/infrastructure/credentials/memory.py with validation.py beside it, Locators is
--     locators.py, and Fresh says what it keeps. Locks
--     has the keyed locks as a step relation on threads; Holding and Registering keep its invariant,
--     and Exclusion draws the theorems from it.
--   Connectors: Json is a JSON value, Metadata the metadata of app/domain/models/attachment.py.
--     MimeTree and Gmail are the attachments in
--     app/infrastructure/connectors/gmail/normalization.py; Listing compares list and lookup.
--     GmailText has the text parts and the pages of the list, BodyTexts where the texts come from.
--     GraphPages is app/infrastructure/connectors/microsoft_graph/pagination.py, Graph the loop of
--     list_attachments in connector.py beside it, with normalization.py; Cursors and Paging prove.
--   Contexts: Model is app/domain/models/business_context.py, Repository
--     app/infrastructure/storage/repositories/business_context.py, Service
--     app/application/services/business_contexts.py. Listed states the filters and the order of a
--     page without the SQL; Pages and Listing compare the code with it.
--   Identity/Bootstrap: app/application/services/owner_bootstrap.py.
--   Tests, DeliveryTests, AttachmentTests, ServiceTests, CredentialTests, ContextTests,
--     WorkItemTests, AccountTests, ConnectorTests, PagingTests: concrete runs.
--
-- Identifiers and times are numbers; texts are lists of code points; what is random, the clock,
-- the hash functions, the secret stores and the executors are arguments. The lists of turns and
-- of requests are arbitrary. Three loops take fuel: the framing of a content has one round more
-- than the content has bytes, the receiving loop one more than its limit, and the pages of
-- attachments 51, which is enough when every page that leads to another lists an attachment. The
-- model of other sessions is READ COMMITTED: their writes show between two statements of a
-- session; row locks and blocking are not modelled.
--
-- Not modelled: HTTP routes, the requests to providers, the bodies of messages, logging, paged
-- reads but those of business contexts, the timeline and the links of business contexts, the
-- parsing of attachments, the OAuth exchanges, and the creation, the sources and the lists of the
-- work items.
pub mod Prelude
pub mod Text
pub mod Errors
pub mod Storage
pub mod Analyses
pub mod Accounts
pub mod Identity
pub mod Sessions
pub mod Workflow
pub mod Contexts
pub mod WorkItems
pub mod Attachments
pub mod Credentials
pub mod Connectors
pub mod Tests
pub mod DeliveryTests
pub mod AttachmentTests
pub mod ServiceTests
pub mod CredentialTests
pub mod ContextTests
pub mod WorkItemTests
pub mod ConnectorTests
pub mod AccountTests
pub mod PagingTests
