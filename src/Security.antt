-- ===== src/Security.antt =====
-- app/security/: who a request is from.
pub mod Claims
pub mod Tokens
