-- ===== src/Attachments.antt =====
-- Attachments of messages: the exchange with the malware scanner, and the policy on the type, the
-- size and the container of an attachment.
pub mod Clamd
pub mod Framing
pub mod Receiving
pub mod Model
pub mod Archive
pub mod Bounds
pub mod Names
pub mod Signatures
pub mod Policy
pub mod Accepted
pub mod Hostile
pub mod Budget
