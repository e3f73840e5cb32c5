-- ===== src/Knowledge/Chunker.antt =====
-- knowledge/chunker.py: the split of a parsed document into chunk candidates. Children model the
-- structured blocks, the whole document, and prove what holds of the windows.
-- Log lines are not modelled. A Python int that may be negative is an ℤ until it has been checked.
pub mod Windows
pub mod Coverage
pub mod Pieces
pub mod Redundant
pub mod Blocks
pub mod Document
use lumen_ai_support_agent.Prelude.Exec.{Result, err, ok}
use lumen_ai_support_agent.Prelude.{
  Bool, List, Option, String, [], if◌then◌else◌, leb, length, ltb, negsuc, none, pos, slice, suc,
  zero, ℕ, ℤ, ◌+◌, ◌-◌, ◌∷◌,
}
use lumen_ai_support_agent.Knowledge.Text.{Text, is_blank, join, split}

-- What a block's dict holds. A value of another type comes with its truth value and its `str()`, a
-- list with its `str()`.
pub data Cell : Type 0 where
  missing : Cell
  cell : Text → Cell

pub data Row : Type 0 where
  not_a_list : Row
  cells : List Cell → Row

pub data Value : Type 0 where
  null : Value
  text : Text → Value
  rows : List Row → Text → Value
  other : Bool → Text → Value

-- A metadata value is one of a block's values, or a count.
pub data Datum : Type 0 where
  datum : Value → Datum
  count : ℕ → Datum

pub record ChunkCandidate : Type 0 where
  pub text : Text
  pub block_index : Option ℕ
  pub token_count : ℕ
  pub chunk_index : ℕ
  pub metadata : List (String × Datum)

-- The causes of the ValueErrors, and a loop that has not ended within its fuel.
pub data Failure : Type 0 where
  size_not_positive : Failure
  negative_overlap : Failure
  overlap_too_large : Failure
  text_too_large : Failure
  out_of_fuel : Failure

abbrev pub Chunked : Type 0 → Type 0
Chunked A = Result Failure A

-- What follows a step that may fail.
unfoldable pub and_then : {A B : Type 0} → Chunked A → (A → Chunked B) → Chunked B
and_then (ok a) f = f a
and_then (err e) f = err e

-- A checked configuration: the window's size and the overlap, in words.
pub record Config : Type 0 where
  pub size : ℕ
  pub overlap : ℕ

unfoldable pub validate_config : ℤ → ℤ → Chunked Config
validate_config (negsuc n) overlap = err Failure.size_not_positive
validate_config (pos zero) overlap = err Failure.size_not_positive
validate_config (pos (suc n)) (negsuc k) = err Failure.negative_overlap
validate_config (pos (suc n)) (pos overlap) =
    if leb (suc n) overlap
    then err Failure.overlap_too_large
    else ok (record { size = suc n; overlap = overlap })

unfoldable pub text_candidate : Text → List Text → ChunkCandidate
text_candidate source_format window = record {
  text = join (32 ∷ []) window;
  block_index = none;
  token_count = length window;
  chunk_index = 0;
  metadata =
      ("source_format", Datum.datum (Value.text source_format))
      ∷ ("block_type", Datum.datum Value.null)
      ∷ [];
}

-- A candidate goes in front of those of the loop's later rounds.
unfoldable pub put_first :
    ChunkCandidate → Chunked (List ChunkCandidate) → Chunked (List ChunkCandidate)
put_first c (ok cs) = ok (c ∷ cs)
put_first c (err e) = err e

-- The loop `while i < n` over the words.
unfoldable pub window_loop : ℕ → Config → Text → List Text → ℕ → Chunked (List ChunkCandidate)
window_loop zero config source_format words i = err Failure.out_of_fuel
window_loop (suc fuel) config source_format words i =
    let window = slice i (i + config.size) words in
    let candidate = text_candidate source_format window in
    let later = window_loop fuel config source_format words (i + (config.size - config.overlap)) in
    if ltb i (length words)
    then (if ltb (length window) config.size
        then ok (candidate ∷ [])
        else put_first candidate later)
    else ok []

-- Words, in windows: a round for each word and one more are enough fuel.
unfoldable pub chunk_words : Config → Text → List Text → Chunked (List ChunkCandidate)
chunk_words config source_format [] = ok []
chunk_words config source_format (w ∷ ws) =
    window_loop (suc (length (w ∷ ws))) config source_format (w ∷ ws) 0

unfoldable pub chunk_text : Text → ℤ → ℤ → Text → Chunked (List ChunkCandidate)
chunk_text s chunk_size chunk_overlap source_format =
    and_then (validate_config chunk_size chunk_overlap)
      λ config. if is_blank s then ok [] else chunk_words config source_format (split s)
