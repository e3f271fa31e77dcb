-- ===== src/Webserver.antt =====
-- internal/webserver: who may do what with a map, and which version a path means.
pub mod Request
pub mod Authz
pub mod Versions
pub mod Bounds
mod Tests
