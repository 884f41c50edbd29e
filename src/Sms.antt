-- ===== src/Sms.antt =====
-- SMS delivery, src/notifications/: its configurations and their store, the registry of providers,
-- the dispatcher with its retries, and the service behind the admin routes.
pub mod Types
pub mod Rows
pub mod Statements
pub mod Drafts
pub mod Activation
pub mod Outcomes
pub mod Switchover
pub mod DraftOutcomes
pub mod Uniqueness
pub mod Invariant
pub mod Consistency
pub mod ActivationConsistency
pub mod History
pub mod Revisions
pub mod Providers
pub mod Dispatcher
pub mod Service
pub mod Inbox
pub mod OtpDelivery
