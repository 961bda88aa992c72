-- ===== src/Segments.antt =====
-- The segment engine: packages/server/src/segments and packages/core/src/segments.
pub mod Cache
pub mod Syntax
pub mod Validate
pub mod Params
pub mod Replace
pub mod Samples
pub mod Operators
pub mod Base
pub mod Predicates
pub mod Behaviour
pub mod Compile
