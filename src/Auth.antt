-- ===== src/Auth.antt =====
-- internal/httpapi/auth_limiter.go: the guard against guessed tokens.
pub mod Limiter
pub mod Gate
mod Tests
