-- ===== src/Auth.antt =====
-- internal/auth: who may reach the validator, and what for.
pub mod Cidr
pub mod Limiter
pub mod Roles
pub mod Token
pub mod Endpoints
mod Tests
