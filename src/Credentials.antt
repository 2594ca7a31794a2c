-- ===== src/Credentials.antt =====
-- Credentials of mailboxes: the cache of access tokens, and the locks on keys.
pub mod TokenCache
pub mod Refinement
pub mod Capacity
pub mod Store
pub mod Locators
pub mod Creating
pub mod Fresh
pub mod Resolver
pub mod Answered
pub mod Granted
pub mod Locks
pub mod Holding
pub mod Registering
pub mod Exclusion
