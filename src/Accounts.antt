-- ===== src/Accounts.antt =====
-- Mailbox connector accounts: grants, rows and repository.
pub mod Capabilities
pub mod Model
pub mod Repository
pub mod Service
pub mod Disconnection
pub mod Loaded
pub mod Disconnecting
