-- ===== src/Ingest.antt =====
-- src/ingest: the requests that producers send, from their validation to the ledger and the queue,
-- and their cancellation.
pub mod Request
pub mod Repo
pub mod Insert
pub mod Once
pub mod Cancel
pub mod Cancelled
pub mod Create
pub mod Front
pub mod Accept
