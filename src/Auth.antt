-- ===== src/Auth.antt =====
-- Sign-in and keys: packages/server/src/auth.
pub mod ProjectCache
pub mod RateLimit
