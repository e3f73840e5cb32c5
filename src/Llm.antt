-- ===== src/Llm.antt =====
-- Provider routing of the LLM client (apps/api/src/llm_client).
pub mod Types
pub mod Resolvers
pub mod Gateway
pub mod RuntimeChain
pub mod Fallback
pub mod Distinct
pub mod Chain
pub mod Routing
pub mod Client
mod Examples
