-- ===== src/Workflow.antt =====
-- Approval-gated workflow actions: the aggregate, its table and its two services, and the proofs.
pub mod Model
pub mod Lifecycle
pub mod Repository
pub mod Service
pub mod Execution
pub mod Begun
pub mod Guarantee
pub mod Sending
pub mod Starting
pub mod Refusing
pub mod Requests
pub mod AtMostOnce
pub mod Delivering
pub mod Delivered
pub mod Completed
