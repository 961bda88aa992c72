-- ===== src/Identity.antt =====
-- Identity resolution: packages/core/src/identity.
pub mod Ranges
pub mod Resolve
