-- ===== src/Quota.antt =====
-- src/producer_quota: the in-process tracker of producer quotas and its database rows.
pub mod Tracker
pub mod Config
pub mod Uplift
pub mod Bounds
