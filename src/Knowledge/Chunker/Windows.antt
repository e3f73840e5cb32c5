-- ===== src/Knowledge/Chunker/Windows.antt =====
-- The windows of knowledge/chunker.py's `chunk_text`, against cutting a list from its front.
use lumen_ai_support_agent.Prelude.Exec.{ok}
use lumen_ai_support_agent.Prelude.{
  Bool-cases, List, [], ap, arith, drop, false, if◌then◌else◌, inl, inr, length, ltb, map, refl,
  slice, suc, take, true, zero, ℕ, ◌+◌, ◌-◌, ◌<◌, ◌∙◌, ◌∷◌, ◌≡◌,
}
use lumen_ai_support_agent.Knowledge.Text.{Text}
use lumen_ai_support_agent.Knowledge.Chunker.{Config, put_first, text_candidate, window_loop}

-- Windows of `size` words, each cut from what is left after `stride` words of the one before: a
-- description of the loop without its index.
unfoldable pub windows : ℕ → ℕ → ℕ → List Text → List (List Text)
windows zero size stride ws = []
windows (suc fuel) size stride [] = []
windows (suc fuel) size stride (w ∷ ws) =
    let later = windows fuel size stride (drop stride (w ∷ ws)) in
    take size (w ∷ ws) ∷ (if ltb (length (take size (w ∷ ws))) size then [] else later)

pub length-drop : {A : Type 0} (n : ℕ) (xs : List A) → length (drop n xs) ≡ length xs - n
length-drop zero xs = omega arith
length-drop (suc n) [] = omega arith
length-drop (suc n) (x ∷ xs) = omega (arith, length-drop n xs)

pub drop-nil : {A : Type 0} (n : ℕ) → drop {A = A} n [] ≡ []
drop-nil zero = refl
drop-nil (suc n) = refl

pub drop-drop : {A : Type 0} (n k : ℕ) (xs : List A) → drop (n + k) xs ≡ drop k (drop n xs)
drop-drop zero k xs = let e : 0 + k ≡ k = omega arith in rw e refl
drop-drop (suc n) k [] = let e : suc n + k ≡ suc (n + k) = omega arith in rw (e, drop-nil k) refl
drop-drop (suc n) k (x ∷ xs) =
    let e : suc n + k ≡ suc (n + k) = omega arith in rw (e, drop-drop n k xs) refl

slice-drop :
    (i size : ℕ) (words rest : List Text)
    → drop i words ≡ rest
    → slice i (i + size) words ≡ take size rest
slice-drop i size words rest e = let n : i + size - i ≡ size = omega arith in rw (n, e) refl

drop-all : (i : ℕ) (words : List Text) → drop i words ≡ [] → ltb i (length words) ≡ false
drop-all i words e = let n = ap length e in ground (arith, length-drop i words)

drop-some :
    (i : ℕ) (w : Text) (words rest : List Text)
    → drop i words ≡ w ∷ rest
    → ltb i (length words) ≡ true
drop-some i w words rest e = let n = ap length e in ground (arith, length-drop i words)

module _ (config : Config) (source_format : Text) (words : List Text) where
  -- Rounds from an index are the rounds on the words from there.
  pub window_loop-windows :
      (fuel i : ℕ) (rest : List Text)
      → config.overlap < config.size
      → drop i words ≡ rest
      → length rest < fuel
      → window_loop fuel config source_format words i
        ≡ ok (
            map
              (text_candidate source_format)
              (windows fuel config.size (config.size - config.overlap) rest))
  unfolding window_loop windows put_first
  window_loop-windows zero i rest h e k = absurd (omega arith)
  window_loop-windows (suc fuel) i [] h e k = rw (drop-all i words e) refl
  window_loop-windows (suc fuel) i (w ∷ rest) h e k =
      let stride = config.size - config.overlap in
      let ih =
        window_loop-windows fuel (i + stride) (drop stride (w ∷ rest)) h
          (drop-drop i stride words ∙ ap (drop stride) e)
          (omega (arith, length-drop stride (w ∷ rest))) in
      rw (drop-some i w words rest e, slice-drop i config.size words (w ∷ rest) e, ih)
        (elim (Bool-cases (ltb (length (take config.size (w ∷ rest))) config.size)) [
          | inl y ↦ rw y refl
          | inr n ↦ rw n refl
        ])
