-- ===== src/Identity.antt =====
-- Users and their external identities.
pub mod Model
pub mod Resolver
pub mod Bootstrap
pub mod Race
