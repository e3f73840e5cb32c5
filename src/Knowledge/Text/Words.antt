-- ===== src/Knowledge/Text/Words.antt =====
-- `str.split()` and `" ".join(...)` undo each other on words.
use lumen_ai_support_agent.Prelude.{
  All, Bool-cases, List, [], ap, false, inl, inr, refl, ◌++◌, ◌∷◌, ◌≡◌,
}
use lumen_ai_support_agent.Knowledge.Text.{Text, emit, is_space, join, scan, split}

-- A word: not empty, and without a space.
abbrev pub IsWord : Text → Type 0
IsWord [] = ⊥
IsWord (c ∷ cs) = All (λ d. is_space d ≡ false) (c ∷ cs)

scan-word : (w t : Text) → All (λ d. is_space d ≡ false) w → scan (w ++ (32 ∷ t)) ≡ (w, split t)
unfolding scan split is_space
scan-word [] t h = refl
scan-word (c ∷ w) t (h, hs) = rw (h, scan-word w t hs) refl

scan-last : (w : Text) → All (λ d. is_space d ≡ false) w → scan w ≡ (w, [])
unfolding scan
scan-last [] h = refl
scan-last (c ∷ w) (h, hs) = rw (h, scan-last w hs) refl

-- Splitting words that were joined by a space gives them back.
pub split-join : (ws : List Text) → All IsWord ws → split (join (32 ∷ []) ws) ≡ ws
unfolding split join emit scan
split-join [] h = refl
split-join ([] ∷ ws) (h, hs) = absurd h
split-join ((c ∷ w) ∷ []) (h, hs) = ap emit (scan-last (c ∷ w) h)
split-join ((c ∷ w) ∷ v ∷ ws) (h, hs) =
    rw (scan-word (c ∷ w) (join (32 ∷ []) (v ∷ ws)) h, split-join (v ∷ ws) hs) refl

emit-IsWord :
    (w : Text) (later : List Text)
    → All (λ d. is_space d ≡ false) w
    → All IsWord later
    → All IsWord (emit (w, later))
unfolding emit
emit-IsWord [] later h hs = hs
emit-IsWord (c ∷ w) later h hs = (h, hs)

scan-IsWord : (s : Text) → All (λ d. is_space d ≡ false) (scan s).0 × All IsWord (scan s).1
unfolding scan
scan-IsWord [] = (tt, tt)
scan-IsWord (c ∷ s) =
    let (h, hs) = scan-IsWord s in
    elim (Bool-cases (is_space c)) [
      | inl y ↦ rw y (tt, emit-IsWord (scan s).0 (scan s).1 h hs)
      | inr n ↦ rw n ((n, h), hs)
    ]

pub split-IsWord : (s : Text) → All IsWord (split s)
unfolding split
split-IsWord s = emit-IsWord (scan s).0 (scan s).1 (scan-IsWord s).0 (scan-IsWord s).1
