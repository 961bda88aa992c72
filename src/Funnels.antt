-- ===== src/Funnels.antt =====
-- The funnels: packages/core/src/funnels.
pub mod Spine
pub mod Levels
pub mod Syntax
pub mod Chains
pub mod People
pub mod Compile
pub mod Validate
