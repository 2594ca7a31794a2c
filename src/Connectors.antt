-- ===== src/Connectors.antt =====
-- Mail connectors: what they make of the JSON that a provider answers.
pub mod Json
pub mod Metadata
pub mod MimeTree
pub mod Gmail
pub mod GmailText
pub mod BodyTexts
pub mod Listing
pub mod GraphPages
pub mod Cursors
pub mod Graph
pub mod Paging
