-- ===== src/Template.antt =====
-- src/template.
pub mod Render
pub mod Parts
pub mod Split
