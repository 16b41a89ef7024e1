-- ===== src/Dispatcher.antt =====
-- src/dispatcher: the claim loop of one tenant, from the claim of queued messages to their send,
-- reschedule or terminal write.
pub mod Claim
pub mod Rows
pub mod Leases
pub mod ScopeClaim
pub mod Worker
pub mod Switches
pub mod Handover
pub mod Agreement
pub mod Queries
pub mod Atomic
pub mod Outcome
pub mod Gates
pub mod Delivery
pub mod Send
pub mod Backoff
pub mod Drain
pub mod Attempts
pub mod Batch
