-- ===== src/Sessions.antt =====
-- Mailbox authorization sessions: their rows, their repository and their service.
pub mod Model
pub mod Repository
pub mod Service
pub mod SingleUse
