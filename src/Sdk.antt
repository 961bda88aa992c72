-- ===== src/Sdk.antt =====
-- The browser SDK: packages/sdk-browser/src.
pub mod Json
pub mod Queue
pub mod Transport
