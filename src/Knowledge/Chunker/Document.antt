-- ===== src/Knowledge/Chunker/Document.antt =====
-- knowledge/chunker.py: the whole document, its blocks before its text.
pub mod Laws
pub mod Outcome
use lumen_ai_support_agent.Prelude.Exec.{err, ok}
use lumen_ai_support_agent.Prelude.{
  List, String, [], if◌then◌else◌, length, ltb, none, some, suc, ℕ, ℤ, ◌*◌, ◌++◌, ◌∷◌,
}
use lumen_ai_support_agent.Knowledge.Text.{Text}
use lumen_ai_support_agent.Knowledge.Chunker.{
  ChunkCandidate, Chunked, Config, Failure, Value, and_then, chunk_text, text, validate_config,
}
use lumen_ai_support_agent.Knowledge.Chunker.Blocks.{Block, chunk_block, get_field, str_of}

pub record ParsedDocument : Type 0 where
  pub text : Text
  pub blocks : List Block
  pub metadata : List (String × Value)
  pub format : Text

-- 50 MB.
abbrev pub max_chunk_text_bytes : ℕ
max_chunk_text_bytes = 50 * 1024 * 1024

unfoldable pub source_format_of : ParsedDocument → Text
source_format_of parsed = elim (get_field "source_format" parsed.metadata) [
  | none ↦ parsed.format
  | some v ↦ str_of v
]

-- The blocks from a position on, in order.
unfoldable pub chunk_blocks : List Block → ℕ → Text → Config → Chunked (List ChunkCandidate)
chunk_blocks [] index source_format config = ok []
chunk_blocks (b ∷ bs) index source_format config =
    and_then (chunk_block b index source_format config)
      λ cs. and_then (chunk_blocks bs (suc index) source_format config) λ later. ok (cs ++ later)

-- `for i, c in enumerate(candidates): c.chunk_index = i`, from a given `i`.
unfoldable pub stamp : ℕ → List ChunkCandidate → List ChunkCandidate
stamp i [] = []
stamp i (c ∷ cs) = record c { chunk_index = i } ∷ stamp (suc i) cs

unfoldable pub chunk_document : ParsedDocument → ℤ → ℤ → Chunked (List ChunkCandidate)
chunk_document parsed chunk_size chunk_overlap =
    and_then (validate_config chunk_size chunk_overlap) λ config.
      if ltb max_chunk_text_bytes (length parsed.text)
      then err Failure.text_too_large
      else and_then (chunk_blocks parsed.blocks 0 (source_format_of parsed) config) λ from_blocks.
        and_then (chunk_text parsed.text chunk_size chunk_overlap (source_format_of parsed))
          λ from_text. ok (stamp 0 (from_blocks ++ from_text))
