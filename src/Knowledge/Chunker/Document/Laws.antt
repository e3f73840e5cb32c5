-- ===== src/Knowledge/Chunker/Document/Laws.antt =====
-- When knowledge/chunker.py's `chunk_document` returns, and what its candidates are.
use mathlib.Core.List.{map-append}
use lumen_ai_support_agent.Knowledge.Text.Words.{split-IsWord}
use lumen_ai_support_agent.Knowledge.Chunker.Windows.{windows}
use lumen_ai_support_agent.Knowledge.Chunker.Document.{
  ParsedDocument, chunk_blocks, chunk_document, max_chunk_text_bytes, source_format_of, stamp,
}
use lumen_ai_support_agent.Prelude.Exec.{ok}
use lumen_ai_support_agent.Prelude.{
  All, Bool-cases, List, Option, Option-cases, String, [], ap, arith, false, inl, inr, leb, length,
  ltb, map, none, pos, refl, some, subst, suc, sym, zero, ℕ, ◌++◌, ◌+◌, ◌-◌, ◌<◌, ◌∙◌, ◌∷◌, ◌≡◌,
  ◌≤◌,
}
use lumen_ai_support_agent.Knowledge.Text.{Text, split}
use lumen_ai_support_agent.Knowledge.Chunker.{
  ChunkCandidate, Config, Datum, Value, and_then, chunk_text, text_candidate,
}
use lumen_ai_support_agent.Knowledge.Chunker.Pieces.{
  IsSized, chunk_text-covers, chunk_text-windows, text_candidate-IsSized, validate_config-ok,
  windows-IsWindow,
}
use lumen_ai_support_agent.Knowledge.Chunker.Blocks.{
  Block, Kind, base_metadata, block_piece, block_to_text, chunk_block, chunk_known_block, kind_of,
  str_field, whole_block,
}

-- Numbers that never go down, from a bound on.
unfoldable pub IsAscending : ℕ → List ℕ → Type 0
IsAscending low [] = Unit
IsAscending low (n ∷ ns) = (low ≤ n) × IsAscending n ns

-- The numbers `i`, `i + 1`, and so on.
unfoldable pub consecutive : ℕ → ℕ → List ℕ
consecutive i zero = []
consecutive i (suc n) = i ∷ consecutive (suc i) n

-- Where a candidate comes from: its block's position, or the count of blocks for the text.
unfoldable pub place : ℕ → ChunkCandidate → ℕ
place block_count c = elim c.block_index [ none ↦ block_count | some i ↦ i ]

-- Candidates that are all from one place, within the size.
abbrev IsFrom : ℕ → Option ℕ → ChunkCandidate → Type 0
IsFrom size index c = IsSized size c × (c.block_index ≡ index)

text_candidate-IsFrom :
    (size : ℕ) (source_format : Text) (wins : List (List Text))
    → All (IsSized size) (map (text_candidate source_format) wins)
    → All (IsFrom size none) (map (text_candidate source_format) wins)
unfolding text_candidate
text_candidate-IsFrom size source_format [] h = tt
text_candidate-IsFrom size source_format (w ∷ wins) (h, hs) =
    ((h, refl), text_candidate-IsFrom size source_format wins hs)

block_piece-IsFrom :
    (size index : ℕ) (base : List (String × Datum)) (cs : List ChunkCandidate)
    → All (IsSized size) cs
    → All (IsFrom size (some index)) (map (block_piece index base) cs)
unfolding block_piece IsSized
block_piece-IsFrom size index base [] h = tt
block_piece-IsFrom size index base (c ∷ cs) (h, hs) =
    ((h, refl), block_piece-IsFrom size index base cs hs)

from_block-append :
    (size index : ℕ) (cs later : List ChunkCandidate)
    → All (IsFrom size (some index)) cs
    → All (IsSized size) later
    → All (IsSized size) (cs ++ later)
from_block-append size index [] later h k = k
from_block-append size index (c ∷ cs) later ((h, _), hs) k =
    (h, from_block-append size index cs later hs k)

from_text-append :
    (size : ℕ) (cs later : List ChunkCandidate)
    → All (IsSized size) cs
    → All (IsFrom size none) later
    → All (IsSized size) (cs ++ later)
from_text-append size [] [] h k = tt
from_text-append size [] (c ∷ later) h ((k, _), ks) = (k, from_text-append size [] later tt ks)
from_text-append size (c ∷ cs) later (h, hs) k = (h, from_text-append size cs later hs k)

IsAscending-lower :
    (low high : ℕ) (ns : List ℕ) → low ≤ high → IsAscending high ns → IsAscending low ns
unfolding IsAscending
IsAscending-lower low high [] h a = tt
IsAscending-lower low high (n ∷ ns) h (k, a) = (omega arith, a)

-- The candidates of one block go in front of those of later places.
block-IsAscending :
    (size total index : ℕ) (cs later : List ChunkCandidate) (ns : List ℕ)
    → All (IsFrom size (some index)) cs
    → IsAscending index (map (place total) later ++ ns)
    → IsAscending index (map (place total) (cs ++ later) ++ ns)
unfolding IsAscending place
block-IsAscending size total index [] later ns h a = a
block-IsAscending size total index (c ∷ cs) later ns ((_, e), hs) a =
    rw e (omega arith, block-IsAscending size total index cs later ns hs a)

text-IsAscending :
    (size total : ℕ) (cs : List ChunkCandidate)
    → All (IsFrom size none) cs
    → IsAscending total (map (place total) cs)
unfolding IsAscending place
text-IsAscending size total [] h = tt
text-IsAscending size total (c ∷ cs) ((_, e), hs) =
    rw e (omega arith, text-IsAscending size total cs hs)

stamp-IsSized :
    (size i : ℕ) (cs : List ChunkCandidate)
    → All (IsSized size) cs
    → All (IsSized size) (stamp i cs)
unfolding stamp IsSized
stamp-IsSized size i [] h = tt
stamp-IsSized size i (c ∷ cs) (h, hs) = (h, stamp-IsSized size (suc i) cs hs)

stamp-place :
    (total i : ℕ) (cs : List ChunkCandidate) → map (place total) (stamp i cs) ≡ map (place total) cs
unfolding stamp place
stamp-place total i [] = refl
stamp-place total i (c ∷ cs) = ap (λ ns. place total c ∷ ns) (stamp-place total (suc i) cs)

stamp-consecutive :
    (i : ℕ) (cs : List ChunkCandidate)
    → map (λ c. c.chunk_index) (stamp i cs) ≡ consecutive i (length (stamp i cs))
unfolding stamp consecutive
stamp-consecutive i [] = refl
stamp-consecutive i (c ∷ cs) = ap (λ ns. i ∷ ns) (stamp-consecutive (suc i) cs)

module _ (source_format : Text) (config : Config) (h : config.overlap < config.size) where
  chunk_known_block-IsFrom :
      (block : List (String × Value)) (kind : Kind) (index : ℕ)
      → (cs : List ChunkCandidate) × (chunk_known_block block kind index source_format config
          ≡ ok cs)
        × All (IsFrom config.size (some index)) cs
  unfolding chunk_known_block whole_block and_then IsSized
  chunk_known_block-IsFrom block kind index =
      let body = block_to_text block kind in
      let base = base_metadata block kind source_format in
      elim (Bool-cases (leb (length (split body)) config.size)) [
        | inl y ↦ (whole_block index base body ∷ [], rw y refl, (((refl, ground arith), refl), tt))
        | inr n ↦
            let (cs, e, _, _, sized) =
              chunk_text-covers body source_format config.size config.overlap h in
            (
              map (block_piece index base) cs,
              rw (n, e) refl,
              block_piece-IsFrom config.size index base cs sized,
            )
      ]

  chunk_block-IsFrom :
      (b : Block) (index : ℕ)
      → (cs : List ChunkCandidate) × (chunk_block b index source_format config ≡ ok cs)
        × All (IsFrom config.size (some index)) cs
  unfolding chunk_block
  chunk_block-IsFrom Block.not_a_dict index = ([], refl, tt)
  chunk_block-IsFrom (Block.fields block) index =
      elim (Option-cases (kind_of (str_field "type" block))) [
        | inl n ↦ ([], rw (n, chunk_block) refl, tt)
        | inr (kind, e) ↦ rw (e, chunk_block) (chunk_known_block-IsFrom block kind index)
      ]

  chunk_blocks-IsFrom :
      (bs : List Block) (index : ℕ)
      → (cs : List ChunkCandidate) × (chunk_blocks bs index source_format config ≡ ok cs)
        × All (IsSized config.size) cs
        × ((total : ℕ) (ns : List ℕ)
            → index + length bs ≤ total
            → IsAscending total ns
            → IsAscending index (map (place total) cs ++ ns))
  unfolding chunk_blocks and_then
  chunk_blocks-IsFrom [] index =
      ([], refl, tt, λ total ns k a. IsAscending-lower index total ns (omega arith) a)
  chunk_blocks-IsFrom (b ∷ bs) index =
      let (cs, e, fs) = chunk_block-IsFrom b index in
      let (later, e', sized, asc) = chunk_blocks-IsFrom bs (suc index) in
      (
        cs ++ later,
        rw (e, e') refl,
        from_block-append config.size index cs later fs sized,
        λ total ns k a. block-IsAscending config.size total index cs later ns fs (
            IsAscending-lower index (suc index) (map (place total) later ++ ns) (omega arith)
              (asc total ns (omega arith) a)),
      )

  chunk_text-IsFrom :
      (s : Text)
      → (cs : List ChunkCandidate) × (chunk_text s
            (pos config.size)
            (pos config.overlap)
            source_format
          ≡ ok cs)
        × All (IsFrom config.size none) cs
  chunk_text-IsFrom s =
      let stride = config.size - config.overlap in
      let wins = windows (suc (length (split s))) config.size stride (split s) in
      (
        map (text_candidate source_format) wins,
        chunk_text-windows s source_format config.size config.overlap h,
        text_candidate-IsFrom config.size source_format wins (
            text_candidate-IsSized source_format config.size wins
              (windows-IsWindow _ config.size stride (split s) (omega arith) (split-IsWord s))),
      )

-- The candidates of a document: each has the word count of its text, at most the size, they are
-- numbered from 0 on, and they come in the order of the blocks, with those of the text last.
unfoldable pub IsChunking : ParsedDocument → ℕ → List ChunkCandidate → Type 0
IsChunking parsed size cs =
    All (IsSized size) cs
    × (map (λ c. c.chunk_index) cs ≡ consecutive 0 (length cs))
    × IsAscending 0 (map (place (length parsed.blocks)) cs)

-- With an overlap below the size and a text of at most 50 * 1024 * 1024 characters, `chunk_document`
-- returns candidates that each have the word count of their text, at most the size, are numbered
-- from 0 on, and come in the order of the blocks, with those of the text last.
pub chunk_document-IsChunking :
    (parsed : ParsedDocument) (size overlap : ℕ)
    → overlap < size
    → length parsed.text ≤ max_chunk_text_bytes
    → (cs : List ChunkCandidate) × (chunk_document parsed (pos size) (pos overlap) ≡ ok cs)
      × IsChunking parsed size cs
unfolding chunk_document and_then IsChunking
chunk_document-IsChunking parsed size overlap h k =
    let total = length parsed.blocks in
    let config : Config = record { size = size; overlap = overlap } in
    let (bs, e, sized, asc) =
      chunk_blocks-IsFrom (source_format_of parsed) config h parsed.blocks 0 in
    let (ts, e', from) = chunk_text-IsFrom (source_format_of parsed) config h parsed.text in
    let small : ltb max_chunk_text_bytes (length parsed.text) ≡ false = ground arith in
    let places = stamp-place total 0 (bs ++ ts) ∙ map-append (place total) bs ts in
    (
      stamp 0 (bs ++ ts),
      rw (validate_config-ok size overlap h, small, e, e') refl,
      (
        stamp-IsSized size 0 (bs ++ ts) (from_text-append size bs ts sized from),
        stamp-consecutive 0 (bs ++ ts),
        subst (IsAscending 0) (sym places)
            (asc total (map (place total) ts) (omega arith) (text-IsAscending size total ts from)),
      ),
    )
