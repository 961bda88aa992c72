-- ===== src/Ingest.antt =====
-- The ingest path: packages/server/src/ingest and packages/core/src/ingest.
pub mod Buffer
pub mod ControlChars
pub mod Counters
pub mod Quota
