-- ===== src/Budget.antt =====
-- The monthly token budget of a tenant (apps/api/src/budget).
pub mod Models
pub mod Repository
pub mod Cache
pub mod Precheck
pub mod World
pub mod Gate
pub mod Resolver
pub mod Ledger
pub mod Enforcement
pub mod Interleaving
pub mod RateLimit
pub mod Warned
pub mod Sober
pub mod SoftWarn
mod Examples
