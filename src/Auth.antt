-- ===== src/Auth.antt =====
-- The authentication of internal/auth/jwt.go.
pub mod Text
pub mod Jwt
