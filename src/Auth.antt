-- ===== src/Auth.antt =====
-- internal/auth: tokens, the revoked ones, and the middleware that asks for them.
pub mod Revocations
pub mod Tokens
