-- ===== src/Knowledge/Examples.antt =====
-- A document with one image and a text of four words, split by twos with an overlap of one.
use lumen_ai_support_agent.Prelude.Exec.{err, ok}
use lumen_ai_support_agent.Prelude.{
  All, List, Option, [], arith, drop, length, map, negsuc, none, pos, refl, some, ℕ, ◌-◌, ◌<◌, ◌∷◌,
  ◌≡◌, ◌≢◌, ◌≤◌, ◌⊎◌,
}
use lumen_ai_support_agent.Knowledge.Text.{
  Text, code_points, emit, is_blank, is_space, join, scan, split,
}
use lumen_ai_support_agent.Knowledge.Chunker.{
  ChunkCandidate, Chunked, Failure, Value, and_then, chunk_text, chunk_words, put_first,
  text_candidate, validate_config, window_loop,
}
use lumen_ai_support_agent.Knowledge.Chunker.Coverage.{Overlapping, merged}
use lumen_ai_support_agent.Knowledge.Chunker.Pieces.{IsSized, chunk_text-covers}
use lumen_ai_support_agent.Knowledge.Chunker.Redundant.{chunk_text-full}
use lumen_ai_support_agent.Knowledge.Chunker.Blocks.{
  Block, base_metadata, block_piece, block_to_text, caption_text, chunk_block, chunk_known_block,
  copied, get_field, kind_metadata, kind_of, str_field, str_of, text_eq, text_or_empty, whole_block,
}
use lumen_ai_support_agent.Knowledge.Chunker.Document.{
  ParsedDocument, chunk_blocks, chunk_document, max_chunk_text_bytes, source_format_of, stamp,
}
use lumen_ai_support_agent.Knowledge.Chunker.Document.Laws.{IsChunking, chunk_document-IsChunking}
use lumen_ai_support_agent.Knowledge.Chunker.Document.Outcome.{IsChecked, chunk_document-ends}

abbrev greeting : Text
greeting = code_points "how to  reset\tit"

abbrev manual : ParsedDocument
manual = record {
  text = greeting;
  blocks =
      Block.fields (
        ("type", Value.text (code_points "image"))
        ∷ ("alt", Value.text (code_points "the button"))
        ∷ [])
      ∷ Block.not_a_dict
      ∷ [];
  metadata = [];
  format = code_points "html";
}

split_runs : map length (split greeting) ≡ 3 ∷ 2 ∷ 5 ∷ 2 ∷ []
unfolding split emit scan is_space
split_runs = refl

texts_of : Chunked (List ChunkCandidate) → List (Text × ℕ × Option ℕ)
texts_of (ok cs) = map (λ c. (c.text, c.token_count, c.block_index)) cs
texts_of (err e) = []

document_runs :
    texts_of (chunk_document manual (pos 2) (pos 1))
    ≡ (code_points "Image: the", 2, some 0)
      ∷ (code_points "the button", 2, some 0)
      ∷ (code_points "button ()", 2, some 0)
      ∷ (code_points "()", 1, some 0)
      ∷ (code_points "how to", 2, none)
      ∷ (code_points "to reset", 2, none)
      ∷ (code_points "reset it", 2, none)
      ∷ (code_points "it", 1, none)
      ∷ []
unfolding texts_of chunk_document and_then validate_config chunk_blocks chunk_block kind_of text_eq
    str_field get_field str_of chunk_known_block split emit scan block_to_text is_space
    base_metadata block_piece caption_text copied kind_metadata text_or_empty whole_block
    source_format_of stamp chunk_text chunk_words put_first text_candidate window_loop is_blank join
document_runs = refl

chunk_text-covers_example :
    (cs : List ChunkCandidate) × (chunk_text greeting (pos 3) (pos 1) [] ≡ ok cs)
    × Overlapping 1 (map (λ c. split c.text) cs)
    × (merged 1 (map (λ c. split c.text) cs) ≡ split greeting)
    × All (IsSized 3) cs
chunk_text-covers_example = chunk_text-covers greeting [] 3 1 (omega arith)

chunk_text-full_example :
    chunk_text greeting (pos 4) (pos 1) []
    ≡ ok (
        text_candidate [] (split greeting) ∷ text_candidate [] (drop (4 - 1) (split greeting)) ∷ [])
unfolding split scan emit is_space
chunk_text-full_example = chunk_text-full greeting [] 4 1 (omega arith) (omega arith) refl

chunk_document-IsChunking_example :
    (cs : List ChunkCandidate) × (chunk_document manual (pos 2) (pos 1) ≡ ok cs)
    × IsChunking manual 2 cs
chunk_document-IsChunking_example = chunk_document-IsChunking manual 2 1 (omega arith) (omega arith)

chunk_document-ends_example :
    ((cs : List ChunkCandidate) × (size : ℕ) × (overlap : ℕ) × (chunk_document manual
          (pos 2)
          (negsuc 0)
        ≡ ok cs)
      × IsChecked (pos 2) (negsuc 0) size overlap
      × (length manual.text ≤ max_chunk_text_bytes))
    ⊎ ((e : Failure) × (chunk_document manual (pos 2) (negsuc 0) ≡ err e)
        × (e ≢ Failure.out_of_fuel)
        × ((size overlap : ℕ)
            → IsChecked (pos 2) (negsuc 0) size overlap
            → max_chunk_text_bytes < length manual.text))
chunk_document-ends_example = chunk_document-ends manual (pos 2) (negsuc 0)
