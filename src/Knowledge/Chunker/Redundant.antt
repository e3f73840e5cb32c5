-- ===== src/Knowledge/Chunker/Redundant.antt =====
-- The last window of knowledge/chunker.py's `chunk_text` when the words just fill the windows.
use lumen_ai_support_agent.Knowledge.Chunker.Windows.{length-drop, windows}
use lumen_ai_support_agent.Prelude.Exec.{ok}
use lumen_ai_support_agent.Prelude.{
  List, [], ap, arith, drop, false, length, ltb, pos, refl, suc, take, true, zero, ℕ, ◌-◌, ◌<◌, ◌∙◌,
  ◌∷◌, ◌≡◌, ◌≤◌,
}
use lumen_ai_support_agent.Knowledge.Text.{Text, split}
use lumen_ai_support_agent.Knowledge.Chunker.{chunk_text, text_candidate}
use lumen_ai_support_agent.Knowledge.Chunker.Pieces.{chunk_text-windows}

take-all : {A : Type 0} (n : ℕ) (xs : List A) → length xs ≤ n → take n xs ≡ xs
take-all zero [] h = refl
take-all zero (x ∷ xs) h = absurd (omega arith)
take-all (suc n) [] h = refl
take-all (suc n) (x ∷ xs) h = ap (λ ys. x ∷ ys) (take-all n xs (omega arith))

-- A window that is not full is the last one.
windows-short :
    (fuel size stride : ℕ) (ws : List Text)
    → 0 < length ws
    → length ws < size
    → windows (suc fuel) size stride ws ≡ ws ∷ []
unfolding windows
windows-short fuel size stride [] p h = absurd (omega arith)
windows-short fuel size stride (w ∷ ws) p h =
    let short : ltb (length (w ∷ ws)) size ≡ true = ground arith in
    rw (take-all size (w ∷ ws) (omega arith), short) refl

windows-full :
    (fuel size overlap : ℕ) (ws : List Text)
    → 0 < overlap
    → overlap < size
    → length ws ≡ size
    → windows (suc (suc fuel)) size (size - overlap) ws ≡ ws ∷ drop (size - overlap) ws ∷ []
unfolding windows
windows-full fuel size overlap [] p h e = absurd (omega arith)
windows-full fuel size overlap (w ∷ ws) p h e =
    let stride = size - overlap in
    let full : ltb (length (w ∷ ws)) size ≡ false = ground arith in
    let n = length-drop stride (w ∷ ws) in
    rw (take-all size (w ∷ ws) (omega arith), full)
      (ap (λ rest. (w ∷ ws) ∷ rest)
        (windows-short fuel size stride (drop stride (w ∷ ws)) (omega arith) (omega arith)))

-- A text of exactly `size` words, with an overlap that is positive and below the size, is split into
-- two candidates: one of all its words, and one of its last `overlap` words, which the first holds already.
pub chunk_text-full :
    (s source_format : Text) (size overlap : ℕ)
    → 0 < overlap
    → overlap < size
    → length (split s) ≡ size
    → chunk_text s (pos size) (pos overlap) source_format
      ≡ ok (
          text_candidate source_format (split s)
          ∷ text_candidate source_format (drop (size - overlap) (split s))
          ∷ [])
chunk_text-full s source_format size overlap p h e =
    chunk_text-windows s source_format size overlap h
    ∙ rw (rounds (length (split s)) (omega arith)) refl
  where
    rounds :
        (n : ℕ)
        → 0 < n
        → windows (suc n) size (size - overlap) (split s)
          ≡ split s ∷ drop (size - overlap) (split s) ∷ []
    rounds zero k = absurd (omega arith)
    rounds (suc n) k = windows-full n size overlap (split s) p h e
