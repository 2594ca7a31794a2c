-- ===== src/Contexts.antt =====
-- Business contexts: the cases and projects that the owner's work items and messages belong to.
pub mod Model
pub mod Lifecycle
pub mod Repository
pub mod Service
pub mod Listed
pub mod Pages
pub mod Listing
pub mod Unarchived
