-- ===== src/Knowledge.antt =====
-- The knowledge base (knowledge/): how a parsed document becomes the chunks that are indexed.
pub mod Text
pub mod Chunker
mod Examples
