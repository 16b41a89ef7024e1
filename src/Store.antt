-- ===== src/Store.antt =====
-- The tenant database (migrations/tenant) as the program's SQL statements read and write it, and
-- the effects that its async functions have.
pub mod Tables
pub mod Exec
pub mod Laws
pub mod Steps
