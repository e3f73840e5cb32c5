-- ===== src/Knowledge/Chunker/Document/Outcome.antt =====
-- When knowledge/chunker.py's `chunk_document` returns, and when it raises.
use lumen_ai_support_agent.Knowledge.Chunker.Pieces.{validate_config-ok}
use lumen_ai_support_agent.Prelude.Exec.{err, ok}
use lumen_ai_support_agent.Prelude.{
  Bool-cases, List, arith, inl, inr, leb, length, ltb, ltb→lt, negsuc, pos, refl, suc, true, zero,
  ℕ, ℤ, ◌<◌, ◌≡◌, ◌≢◌, ◌≤◌, ◌⊎◌,
}
use lumen_ai_support_agent.Knowledge.Chunker.{ChunkCandidate, Failure, and_then, validate_config}
use lumen_ai_support_agent.Knowledge.Chunker.Document.{
  ParsedDocument, chunk_document, max_chunk_text_bytes,
}
use lumen_ai_support_agent.Knowledge.Chunker.Document.Laws.{chunk_document-IsChunking}

-- The checks pass: the two numbers are naturals, the overlap below the size.
unfoldable pub IsChecked : ℤ → ℤ → ℕ → ℕ → Type 0
IsChecked chunk_size chunk_overlap size overlap =
    (chunk_size ≡ pos size) × (chunk_overlap ≡ pos overlap) × (overlap < size)

-- A ValueError that no configuration escapes.
abbrev IsRefused : ℤ → ℤ → Type 0
IsRefused chunk_size chunk_overlap =
    (e : Failure) × (validate_config chunk_size chunk_overlap ≡ err e)
    × (e ≢ Failure.out_of_fuel)
    × ((size overlap : ℕ) → ¬ IsChecked chunk_size chunk_overlap size overlap)

validate_config-cases :
    (chunk_size chunk_overlap : ℤ)
    → ((size : ℕ) × (overlap : ℕ) × IsChecked chunk_size chunk_overlap size overlap)
      ⊎ IsRefused chunk_size chunk_overlap
unfolding validate_config IsChecked
validate_config-cases (negsuc n) overlap =
    inr (Failure.size_not_positive, refl, ground arith, λ s o (e, _, _). ground arith)
validate_config-cases (pos zero) overlap =
    inr (Failure.size_not_positive, refl, ground arith, λ s o (e, _, h). grind arith)
validate_config-cases (pos (suc n)) (negsuc k) =
    inr (Failure.negative_overlap, refl, ground arith, λ s o (_, e, _). ground arith)
validate_config-cases (pos (suc n)) (pos overlap) = elim (Bool-cases (leb (suc n) overlap)) [
  | inl y ↦ inr (Failure.overlap_too_large, rw y refl, ground arith, λ s o (e, e', h). grind arith)
  | inr k ↦ inl (suc n, overlap, (refl, refl, ground arith))
]

refused-raises :
    (parsed : ParsedDocument) (chunk_size chunk_overlap : ℤ) (e : Failure)
    → validate_config chunk_size chunk_overlap ≡ err e
    → chunk_document parsed chunk_size chunk_overlap ≡ err e
unfolding chunk_document and_then
refused-raises parsed chunk_size chunk_overlap e h = rw h refl

large-raises :
    (parsed : ParsedDocument) (size overlap : ℕ)
    → overlap < size
    → max_chunk_text_bytes < length parsed.text
    → chunk_document parsed (pos size) (pos overlap) ≡ err Failure.text_too_large
unfolding chunk_document and_then
large-raises parsed size overlap h k =
    let large : ltb max_chunk_text_bytes (length parsed.text) ≡ true = ground arith in
    rw (validate_config-ok size overlap h, large) refl

-- Whatever the document and the configuration, `chunk_document` comes to an end: it returns its
-- candidates, or raises a ValueError, and never runs out of the rounds that its loops are given. It
-- returns exactly when the overlap is a natural number below the size and the text has at most
-- 50 * 1024 * 1024 characters.
pub chunk_document-ends :
    (parsed : ParsedDocument) (chunk_size chunk_overlap : ℤ)
    → ((cs : List ChunkCandidate) × (size : ℕ) × (overlap : ℕ) × (chunk_document parsed chunk_size
            chunk_overlap
          ≡ ok cs)
        × IsChecked chunk_size chunk_overlap size overlap
        × (length parsed.text ≤ max_chunk_text_bytes))
      ⊎ ((e : Failure) × (chunk_document parsed chunk_size chunk_overlap ≡ err e)
          × (e ≢ Failure.out_of_fuel)
          × ((size overlap : ℕ)
              → IsChecked chunk_size chunk_overlap size overlap
              → max_chunk_text_bytes < length parsed.text))
unfolding IsChecked
chunk_document-ends parsed chunk_size chunk_overlap =
    elim (validate_config-cases chunk_size chunk_overlap) [
      | inl (size, overlap, (e, e', h)) ↦
          elim (Bool-cases (ltb max_chunk_text_bytes (length parsed.text))) [
            | inl y ↦ inr (
              Failure.text_too_large,
              rw (e, e') (large-raises parsed size overlap h (ltb→lt _ _ y)),
              ground arith,
              λ _ _ _. ltb→lt _ _ y,
            )
            | inr n ↦
                let small : length parsed.text ≤ max_chunk_text_bytes = ground arith in
                let (cs, returned, _) = chunk_document-IsChunking parsed size overlap h small in
                inl (cs, size, overlap, rw (e, e') returned, (e, e', h), small)
          ]
      | inr (e, refused, known, never) ↦ inr (
        e,
        refused-raises parsed chunk_size chunk_overlap e refused,
        known,
        λ size overlap c. absurd (never size overlap c),
      )
    ]
