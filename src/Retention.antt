-- ===== src/Retention.antt =====
-- The retention report of packages/core/src/retention.
pub mod Validate
pub mod Texts
pub mod Compile
pub mod Cells
