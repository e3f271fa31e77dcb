-- ===== src/Auth.antt =====
-- internal/auth: the tokens of a request, and who it is from.
pub mod Jwt
pub mod Bearer
pub mod Middleware
mod Tests
