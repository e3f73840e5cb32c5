-- ===== src/Auth.antt =====
-- auth/rate_limit.py: the caller's address and the limit of the tenant lookup.
pub mod ClientIp
pub mod RateLimit
pub mod Window
pub mod Login
pub mod Outcome
pub mod Grants
pub mod Again
mod Samples
mod Examples
