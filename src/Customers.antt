-- ===== src/Customers.antt =====
-- src/customer and src/customer_dek.
pub mod Deks
pub mod Repo
pub mod Resolve
pub mod Undo
pub mod Safe
pub mod DekSafe
pub mod DekFrame
pub mod Holding
pub mod Steps
pub mod Resolution
