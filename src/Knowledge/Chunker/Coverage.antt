-- ===== src/Knowledge/Chunker/Coverage.antt =====
-- What the windows of knowledge/chunker.py's `chunk_text` keep of the text.
use lumen_ai_support_agent.Prelude.{
  Bool-cases, List, [], ap, append-nil, arith, drop, if◌then◌else◌, inl, inr, length, ltb, refl,
  suc, sym, take, zero, ℕ, ◌++◌, ◌+◌, ◌-◌, ◌<◌, ◌∙◌, ◌∷◌, ◌≡◌, ◌≤◌,
}
use lumen_ai_support_agent.Knowledge.Text.{Text}
use lumen_ai_support_agent.Knowledge.Chunker.Windows.{drop-drop, drop-nil, length-drop, windows}

-- Of each window the words after the overlap, in order.
unfoldable pub after_overlap : ℕ → List (List Text) → List Text
after_overlap overlap [] = []
after_overlap overlap (w ∷ ws) = drop overlap w ++ after_overlap overlap ws

-- The words that the windows hold together: all of the first window, and of each later one those
-- after the overlap.
unfoldable pub merged : ℕ → List (List Text) → List Text
merged overlap [] = []
merged overlap (w ∷ ws) = w ++ after_overlap overlap ws

-- Each window after another begins with that one's last `overlap` words.
abbrev pub Overlapping : ℕ → List (List Text) → Type 0
Overlapping overlap [] = Unit
Overlapping overlap (w ∷ []) = Unit
Overlapping overlap (w ∷ v ∷ ws) =
    (take overlap v ≡ drop (length w - overlap) w)
    × (overlap ≤ length w)
    × Overlapping overlap (v ∷ ws)

take-nil : {A : Type 0} (n : ℕ) → take {A = A} n [] ≡ []
take-nil zero = refl
take-nil (suc n) = refl

drop-take : {A : Type 0} (n k : ℕ) (xs : List A) → drop k (take (k + n) xs) ≡ take n (drop k xs)
drop-take n zero xs = let e : 0 + n ≡ n = omega arith in rw e refl
drop-take n (suc k) [] = let e : suc k + n ≡ suc (k + n) = omega arith in rw e (sym (take-nil n))
drop-take n (suc k) (x ∷ xs) =
    let e : suc k + n ≡ suc (k + n) = omega arith in rw e (drop-take n k xs)

take-take : {A : Type 0} (n k : ℕ) (xs : List A) → n ≤ k → take n (take k xs) ≡ take n xs
take-take zero k xs h = refl
take-take (suc n) zero xs h = absurd (omega arith)
take-take (suc n) (suc k) [] h = refl
take-take (suc n) (suc k) (x ∷ xs) h = ap (λ ys. x ∷ ys) (take-take n k xs (omega arith))

length-take : {A : Type 0} (n : ℕ) (xs : List A) → n ≤ length xs → length (take n xs) ≡ n
length-take zero xs h = refl
length-take (suc n) [] h = absurd (omega arith)
length-take (suc n) (x ∷ xs) h = ap suc (length-take n xs (omega arith))

length-take-bound : {A : Type 0} (n : ℕ) (xs : List A) → length (take n xs) ≤ length xs
length-take-bound zero xs = omega arith
length-take-bound (suc n) [] = omega arith
length-take-bound (suc n) (x ∷ xs) = omega (arith, length-take-bound n xs)

drop-take-append :
    {A : Type 0} (o s : ℕ) (xs : List A) → o ≤ s → drop o (take s xs) ++ drop s xs ≡ drop o xs
drop-take-append zero zero xs h = refl
drop-take-append zero (suc s) [] h = refl
drop-take-append zero (suc s) (x ∷ xs) h =
    ap (λ ys. x ∷ ys) (drop-take-append zero s xs (omega arith))
drop-take-append (suc o) zero xs h = absurd (omega arith)
drop-take-append (suc o) (suc s) [] h = refl
drop-take-append (suc o) (suc s) (x ∷ xs) h = drop-take-append o s xs (omega arith)

take-short : {A : Type 0} (s : ℕ) (xs : List A) → length (take s xs) < s → take s xs ≡ xs
take-short zero xs h = absurd (omega arith)
take-short (suc s) [] h = refl
take-short (suc s) (x ∷ xs) h = ap (λ ys. x ∷ ys) (take-short s xs (omega arith))

module _ (size overlap : ℕ) (h : overlap < size) where
  -- The windows that the loop still cuts when it has cut the first one of `ws`.
  unfoldable later_windows : ℕ → List Text → List (List Text)
  later_windows fuel ws =
      if ltb (length (take size ws)) size
      then []
      else windows fuel size (size - overlap) (drop (size - overlap) ws)

  -- A window and the next ones make up the words, when the next ones go on where it ended.
  window-append :
      (fuel : ℕ) (ws : List Text) (o : ℕ)
      → o ≤ size
      → after_overlap overlap (windows fuel size (size - overlap) (drop (size - overlap) ws))
        ≡ drop size ws
      → drop o (take size ws) ++ after_overlap overlap (later_windows fuel ws) ≡ drop o ws
  unfolding after_overlap later_windows
  window-append fuel ws o b ih = elim (Bool-cases (ltb (length (take size ws)) size)) [
    | inl y ↦ rw (y, append-nil (drop o (take size ws)), take-short size ws (ground arith)) refl
    | inr n ↦ rw (n, ih) (drop-take-append o size ws b)
  ]

  -- What is left after a stride, less the overlap, follows the first `size` words.
  drop-stride : (ws : List Text) → drop overlap (drop (size - overlap) ws) ≡ drop size ws
  drop-stride ws =
      let n : size - overlap + overlap ≡ size = omega arith in
      sym (drop-drop (size - overlap) overlap ws) ∙ ap (λ m. drop m ws) n

  after_overlap-windows :
      (fuel : ℕ) (ws : List Text)
      → length ws < fuel
      → after_overlap overlap (windows fuel size (size - overlap) ws) ≡ drop overlap ws
  unfolding after_overlap windows later_windows
  after_overlap-windows zero ws k = absurd (omega arith)
  after_overlap-windows (suc fuel) [] k = sym (drop-nil overlap)
  after_overlap-windows (suc fuel) (w ∷ ws) k = window-append fuel (w ∷ ws) overlap (omega arith) (
      after_overlap-windows fuel (drop (size - overlap) (w ∷ ws))
        (omega (arith, length-drop (size - overlap) (w ∷ ws)))
      ∙ drop-stride (w ∷ ws))

  -- Merged windows are the words.
  pub merged-windows :
      (fuel : ℕ) (ws : List Text)
      → length ws < fuel
      → merged overlap (windows fuel size (size - overlap) ws) ≡ ws
  unfolding merged windows later_windows
  merged-windows zero ws k = absurd (omega arith)
  merged-windows (suc fuel) [] k = refl
  merged-windows (suc fuel) (w ∷ ws) k = window-append fuel (w ∷ ws) 0 (omega arith) (
      after_overlap-windows fuel (drop (size - overlap) (w ∷ ws))
        (omega (arith, length-drop (size - overlap) (w ∷ ws)))
      ∙ drop-stride (w ∷ ws))

  -- What goes on after the stride begins with the last words of the full window.
  repeats :
      (ws : List Text)
      → size ≤ length ws
      → take overlap (take size (drop (size - overlap) ws))
        ≡ drop (length (take size ws) - overlap) (take size ws)
  repeats ws k =
      let n : size ≡ size - overlap + overlap = omega arith in
      take-take overlap size (drop (size - overlap) ws) (omega arith)
      ∙ sym (drop-take overlap (size - overlap) ws)
      ∙ ap (λ m. drop (size - overlap) (take m ws)) (sym n)
      ∙ ap (λ m. drop (m - overlap) (take size ws)) (sym (length-take size ws k))

  -- A full window, put before those that go on after its stride.
  overlap-cons :
      (fuel : ℕ) (ws rest : List Text)
      → size ≤ length ws
      → drop (size - overlap) ws ≡ rest
      → Overlapping overlap (windows fuel size (size - overlap) rest)
      → Overlapping overlap (take size ws ∷ windows fuel size (size - overlap) rest)
  unfolding windows
  overlap-cons zero ws rest k e ih = tt
  overlap-cons (suc fuel) ws [] k e ih = tt
  overlap-cons (suc fuel) ws (v ∷ vs) k e ih =
      (rw (sym e) (repeats ws k), omega (arith, length-take size ws k), ih)

  pub windows-Overlapping :
      (fuel : ℕ) (ws : List Text) → Overlapping overlap (windows fuel size (size - overlap) ws)
  unfolding windows
  windows-Overlapping zero ws = tt
  windows-Overlapping (suc fuel) [] = tt
  windows-Overlapping (suc fuel) (w ∷ ws) =
      elim (Bool-cases (ltb (length (take size (w ∷ ws))) size)) [
        | inl y ↦ rw y tt
        | inr n ↦ rw n (
            overlap-cons fuel (w ∷ ws) (drop (size - overlap) (w ∷ ws))
              (ground (arith, length-take-bound size (w ∷ ws))) refl
              (windows-Overlapping fuel (drop (size - overlap) (w ∷ ws))))
      ]
