-- ===== src/Tests.antt =====
-- Runs of the models at concrete inputs, and each general result applied to such an input.
pub mod Samples
pub mod Switches
pub mod Claims
pub mod Quotas
pub mod Hours
pub mod Work
pub mod Requests
pub mod Receipts
pub mod Templates
pub mod Otps
pub mod Resolutions
pub mod Creates
