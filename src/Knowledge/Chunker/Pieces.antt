-- ===== src/Knowledge/Chunker/Pieces.antt =====
-- The candidates of knowledge/chunker.py's `chunk_text`: their texts, counts and sizes.
use lumen_ai_support_agent.Prelude.Exec.{ok}
use lumen_ai_support_agent.Prelude.{
  All, Bool-cases, List, [], ap, arith, drop, false, inl, inr, leb, length, length-take-le, ltb,
  map, pos, refl, subst, suc, sym, take, true, zero, ℕ, ◌-◌, ◌<◌, ◌∙◌, ◌∷◌, ◌≡◌, ◌≤◌,
}
use lumen_ai_support_agent.Knowledge.Text.{Text, emit, is_blank, is_space, scan, split}
use lumen_ai_support_agent.Knowledge.Text.Words.{IsWord, split-IsWord, split-join}
use lumen_ai_support_agent.Knowledge.Chunker.{
  ChunkCandidate, and_then, chunk_text, chunk_words, text_candidate, validate_config,
}
use lumen_ai_support_agent.Knowledge.Chunker.Windows.{window_loop-windows, windows}
use lumen_ai_support_agent.Knowledge.Chunker.Coverage.{
  Overlapping, merged, merged-windows, windows-Overlapping,
}

scan-blank : (s : Text) → is_blank s ≡ true → scan s ≡ ([], [])
unfolding is_blank scan emit
scan-blank [] h = refl
scan-blank (c ∷ s) h = elim (Bool-cases (is_space c)) [
  | inl y ↦ let b : is_blank s ≡ true = ground (arith, h, y) in rw (y, scan-blank s b) refl
  | inr n ↦ absurd (ground (arith, h, n))
]

split-blank : (s : Text) → is_blank s ≡ true → split s ≡ []
unfolding split emit
split-blank s h = rw (scan-blank s h) refl

pub validate_config-ok :
    (size overlap : ℕ)
    → overlap < size
    → validate_config (pos size) (pos overlap) ≡ ok (record { size = size; overlap = overlap })
unfolding validate_config
validate_config-ok zero overlap h = absurd (omega arith)
validate_config-ok (suc n) overlap h =
    let no : leb (suc n) overlap ≡ false = ground arith in rw no refl

-- With a configuration that passes the checks, `chunk_text` returns one candidate for each window of
-- the words of the text, in order, and it returns within its fuel.
pub chunk_text-windows :
    (s source_format : Text) (size overlap : ℕ)
    → overlap < size
    → chunk_text s (pos size) (pos overlap) source_format
      ≡ ok (
          map
            (text_candidate source_format)
            (windows (suc (length (split s))) size (size - overlap) (split s)))
unfolding chunk_text chunk_words and_then windows
chunk_text-windows s source_format size overlap h =
    rw (validate_config-ok size overlap h) (elim (Bool-cases (is_blank s)) [
      | inl y ↦ rw (y, split-blank s y) refl
      | inr n ↦ rw n (words_case (split s))
    ])
  where
    words_case :
        (ws : List Text)
        → chunk_words (record { size = size; overlap = overlap }) source_format ws
          ≡ ok (
              map
                (text_candidate source_format)
                (windows (suc (length ws)) size (size - overlap) ws))
    words_case [] = refl
    words_case (w ∷ ws) =
        window_loop-windows _ source_format (w ∷ ws) (suc (length (w ∷ ws))) 0 (w ∷ ws) h refl
          (omega arith)

All-take : {A : Type 0} (P : A → Type 0) (n : ℕ) (xs : List A) → All P xs → All P (take n xs)
All-take P zero xs h = tt
All-take P (suc n) [] h = tt
All-take P (suc n) (x ∷ xs) (h, hs) = (h, All-take P n xs hs)

All-drop : {A : Type 0} (P : A → Type 0) (n : ℕ) (xs : List A) → All P xs → All P (drop n xs)
All-drop P zero xs h = h
All-drop P (suc n) [] h = tt
All-drop P (suc n) (x ∷ xs) (h, hs) = All-drop P n xs hs

-- A window of words of at most `size`.
abbrev pub IsWindow : ℕ → List Text → Type 0
IsWindow size w = All IsWord w × (length w ≤ size) × (1 ≤ length w)

pub windows-IsWindow :
    (fuel size stride : ℕ) (ws : List Text)
    → 1 ≤ size
    → All IsWord ws
    → All (IsWindow size) (windows fuel size stride ws)
unfolding windows
windows-IsWindow zero size stride ws k h = tt
windows-IsWindow (suc fuel) size stride [] k h = tt
windows-IsWindow (suc fuel) zero stride (w ∷ ws) k h = absurd (omega arith)
windows-IsWindow (suc fuel) (suc size) stride (w ∷ ws) k h =
    let ih =
      windows-IsWindow fuel (suc size) stride (drop stride (w ∷ ws)) k
        (All-drop IsWord stride (w ∷ ws) h) in
    (
      (All-take IsWord (suc size) (w ∷ ws) h, length-take-le (suc size) (w ∷ ws), omega arith),
      elim (Bool-cases (ltb (length (take (suc size) (w ∷ ws))) (suc size))) [
        | inl y ↦ rw y tt
        | inr n ↦ rw n ih
      ],
    )

-- A candidate whose count is that of the words of its text, within the size.
unfoldable pub IsSized : ℕ → ChunkCandidate → Type 0
IsSized size c = (c.token_count ≡ length (split c.text)) × (c.token_count ≤ size)

text_candidate-split :
    (source_format : Text) (size : ℕ) (wins : List (List Text))
    → All (IsWindow size) wins
    → map (λ c. split c.text) (map (text_candidate source_format) wins) ≡ wins
unfolding text_candidate
text_candidate-split source_format size [] h = refl
text_candidate-split source_format size (w ∷ wins) ((h, _, _), hs) =
    rw (split-join w h, text_candidate-split source_format size wins hs) refl

pub text_candidate-IsSized :
    (source_format : Text) (size : ℕ) (wins : List (List Text))
    → All (IsWindow size) wins
    → All (IsSized size) (map (text_candidate source_format) wins)
unfolding text_candidate IsSized
text_candidate-IsSized source_format size [] h = tt
text_candidate-IsSized source_format size (w ∷ wins) ((h, k, _), hs) =
    ((ap length (sym (split-join w h)), k), text_candidate-IsSized source_format size wins hs)

-- With a size above the overlap, `chunk_text` returns: its candidates have the word counts of their
-- texts, at most the size; each candidate after another begins with that one's last `overlap` words;
-- and without these repeated words the texts hold every word of the text, in order.
pub chunk_text-covers :
    (s source_format : Text) (size overlap : ℕ)
    → overlap < size
    → (cs : List ChunkCandidate) × (chunk_text s (pos size) (pos overlap) source_format ≡ ok cs)
      × Overlapping overlap (map (λ c. split c.text) cs)
      × (merged overlap (map (λ c. split c.text) cs) ≡ split s)
      × All (IsSized size) cs
chunk_text-covers s source_format size overlap h =
    let fuel = suc (length (split s)) in
    let wins = windows fuel size (size - overlap) (split s) in
    let good =
      windows-IsWindow fuel size (size - overlap) (split s) (omega arith) (split-IsWord s) in
    (
      map (text_candidate source_format) wins,
      chunk_text-windows s source_format size overlap h,
      subst (Overlapping overlap) (sym (text_candidate-split source_format size wins good))
          (windows-Overlapping size overlap h fuel (split s)),
      ap (merged overlap) (text_candidate-split source_format size wins good)
          ∙ merged-windows size overlap h fuel (split s) (omega arith),
      text_candidate-IsSized source_format size wins good,
    )
