-- ===== src/Privacy.antt =====
-- What is kept of deleted people: packages/core/src/privacy.
pub mod Suppression
