-- ===== src/Receipts.antt =====
-- src/orphan_reconcile and src/webhook_receipt: delivery receipts of the provider, from the staging
-- table to the event log, the ledger's final status and the suppression list.
pub mod Status
pub mod Repo
pub mod Reconcile
pub mod Advance
pub mod Suppress
pub mod Promote
pub mod Effects
pub mod Ageing
