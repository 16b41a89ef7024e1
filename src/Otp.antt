-- ===== src/Otp.antt =====
-- src/otp, the one-time-password service.
pub mod Model
pub mod Repo
pub mod Service
pub mod Provider
pub mod Handler
pub mod Keys
pub mod Drain
pub mod Log
pub mod Filing
pub mod Walk
pub mod Drained
pub mod Race
pub mod Emptied
pub mod Reply
