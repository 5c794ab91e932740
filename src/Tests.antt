-- ===== src/Tests.antt =====
-- The theorems applied at concrete values.
pub mod Access
pub mod Signals
pub mod Requests
pub mod Policies
pub mod Inbox
pub mod Hubspot
pub mod Proposals
pub mod Tokens
pub mod References
pub mod Sheets
pub mod Tools
pub mod Approval
pub mod Knowledge
pub mod Drive
pub mod Push
pub mod History
