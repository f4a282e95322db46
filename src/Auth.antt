-- ===== src/Auth.antt =====
-- Users, tokens and permissions: pkg/auth/auth.go.
pub mod Model
pub mod Tokens
pub mod Permissions
mod Tests
