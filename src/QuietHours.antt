-- ===== src/QuietHours.antt =====
-- src/quiet_hours: the tenant's quiet-hours window and when it moves a send to.
pub mod Window
pub mod Search
pub mod Reschedule
