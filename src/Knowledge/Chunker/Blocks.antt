-- ===== src/Knowledge/Chunker/Blocks.antt =====
-- knowledge/chunker.py: the candidates of one structured block (code, image or table).
use lumen_ai_support_agent.Prelude.Exec.{ok}
use lumen_ai_support_agent.Prelude.{
  Bool, List, Option, String, [], false, if◌then◌else◌, leb, length, map, nat_eq, none, pos, some,
  true, ℕ, ◌&&◌, ◌++◌, ◌==◌, ◌∷◌,
}
use lumen_ai_support_agent.Knowledge.Text.{Text, code_points, is_blank, join, split}
use lumen_ai_support_agent.Knowledge.Chunker.{
  Cell, ChunkCandidate, Chunked, Config, Datum, Row, Value, and_then, chunk_text,
}

-- A block is a dict, or something else.
pub data Block : Type 0 where
  not_a_dict : Block
  fields : List (String × Value) → Block

unfoldable pub get_field : String → List (String × Value) → Option Value
get_field key [] = none
get_field key ((k, v) ∷ rest) = if k == key then some v else get_field key rest

-- `str(value)`.
unfoldable pub str_of : Value → Text
str_of Value.null = code_points "None"
str_of (Value.text t) = t
str_of (Value.rows r printed) = printed
str_of (Value.other truth printed) = printed

-- `str(block.get(key, ""))`.
unfoldable pub str_field : String → List (String × Value) → Text
str_field key block = elim (get_field key block) [ none ↦ [] | some v ↦ str_of v ]

unfoldable pub is_truthy : Value → Bool
is_truthy Value.null = false
is_truthy (Value.text []) = false
is_truthy (Value.text (c ∷ cs)) = true
is_truthy (Value.rows [] printed) = false
is_truthy (Value.rows (r ∷ rs) printed) = true
is_truthy (Value.other truth printed) = truth

unfoldable pub text_eq : Text → Text → Bool
text_eq [] [] = true
text_eq [] (d ∷ t) = false
text_eq (c ∷ s) [] = false
text_eq (c ∷ s) (d ∷ t) = nat_eq c d && text_eq s t

-- The types that are not skipped.
pub data Kind : Type 0 where
  code_block : Kind
  image_block : Kind
  table_block : Kind

unfoldable pub kind_of : Text → Option Kind
kind_of block_type =
    if text_eq block_type (code_points "code")
    then some Kind.code_block
    else if text_eq block_type (code_points "image")
    then some Kind.image_block
    else if text_eq block_type (code_points "table")
    then some Kind.table_block
    else none

unfoldable pub cell_texts : List Cell → List Text
cell_texts [] = []
cell_texts (Cell.missing ∷ cs) = cell_texts cs
cell_texts (Cell.cell t ∷ cs) = t ∷ cell_texts cs

-- The lines of a table: the cells of a row joined by tabs, rows without a cell left out.
unfoldable pub table_lines : List Row → List Text
table_lines [] = []
table_lines (Row.not_a_list ∷ rs) = table_lines rs
table_lines (Row.cells cs ∷ rs) = elim (cell_texts cs) [
  | [] ↦ table_lines rs
  | t ∷ ts ↦ join (9 ∷ []) (t ∷ ts) ∷ table_lines rs
]

unfoldable pub linearize_table_rows : List Row → Text
linearize_table_rows rs = join (10 ∷ []) (table_lines rs)

unfoldable pub text_or_empty : Option Value → Text
text_or_empty none = []
text_or_empty (some Value.null) = []
text_or_empty (some (Value.text t)) = t
text_or_empty (some (Value.rows r printed)) = []
text_or_empty (some (Value.other truth printed)) = []

unfoldable pub table_text : Option Value → Text
table_text none = []
table_text (some Value.null) = []
table_text (some (Value.text t)) = []
table_text (some (Value.rows r printed)) = linearize_table_rows r
table_text (some (Value.other truth printed)) = []

-- The caption on a line of its own, where it is a text that is not blank.
unfoldable pub caption_text : List (String × Value) → Text
caption_text block =
    let caption = text_or_empty (get_field "caption" block) in
    if is_blank caption then [] else 10 ∷ caption

unfoldable pub block_to_text : List (String × Value) → Kind → Text
block_to_text block Kind.code_block = text_or_empty (get_field "text" block)
block_to_text block Kind.image_block =
    code_points "Image: "
    ++ (str_field "alt" block
        ++ (code_points " (" ++ (str_field "src" block ++ (code_points ")" ++ caption_text block))))
block_to_text block Kind.table_block = table_text (get_field "rows" block)

-- A key that the block has is copied.
unfoldable pub copied : String → List (String × Value) → List (String × Datum)
copied key block = elim (get_field key block) [ none ↦ [] | some v ↦ (key, Datum.datum v) ∷ [] ]

unfoldable pub row_count : Option Value → List (String × Datum)
row_count none = []
row_count (some Value.null) = []
row_count (some (Value.text t)) = []
row_count (some (Value.rows r printed)) = ("row_count", Datum.count (length r)) ∷ []
row_count (some (Value.other truth printed)) = []

unfoldable pub language : Option Value → List (String × Datum)
language none = []
language (some v) = if is_truthy v then ("language", Datum.datum v) ∷ [] else []

unfoldable pub kind_metadata : List (String × Value) → Kind → List (String × Datum)
kind_metadata block Kind.code_block = language (get_field "language" block)
kind_metadata block Kind.image_block =
    copied "alt" block ++ (copied "src" block ++ copied "caption" block)
kind_metadata block Kind.table_block = row_count (get_field "rows" block)

unfoldable pub base_metadata : List (String × Value) → Kind → Text → List (String × Datum)
base_metadata block kind source_format =
    ("source_format", Datum.datum (Value.text source_format))
    ∷ ("block_type", Datum.datum (Value.text (str_field "type" block)))
    ∷ kind_metadata block kind

-- The one candidate of a block within the size.
unfoldable pub whole_block : ℕ → List (String × Datum) → Text → ChunkCandidate
whole_block index base body = record {
  text = body;
  block_index = some index;
  token_count = length (split body);
  chunk_index = 0;
  metadata = base;
}

-- A piece of an oversized block, with the block's position and metadata.
unfoldable pub block_piece : ℕ → List (String × Datum) → ChunkCandidate → ChunkCandidate
block_piece index base c = record {
  text = c.text;
  block_index = some index;
  token_count = c.token_count;
  chunk_index = 0;
  metadata = base;
}

unfoldable pub chunk_known_block :
    List (String × Value) → Kind → ℕ → Text → Config → Chunked (List ChunkCandidate)
chunk_known_block block kind index source_format config =
    let body = block_to_text block kind in
    let base = base_metadata block kind source_format in
    if leb (length (split body)) config.size
    then ok (whole_block index base body ∷ [])
    else and_then (chunk_text body (pos config.size) (pos config.overlap) source_format)
        λ sub. ok (map (block_piece index base) sub)

unfoldable pub chunk_block : Block → ℕ → Text → Config → Chunked (List ChunkCandidate)
chunk_block Block.not_a_dict index source_format config = ok []
chunk_block (Block.fields block) index source_format config =
    elim (kind_of (str_field "type" block)) [
      | none ↦ ok []
      | some kind ↦ chunk_known_block block kind index source_format config
    ]
