-- ===== src/Prelude/Integers.antt =====
-- Differences of native numbers, where the program subtracts below zero.
use lumen_ai_support_agent.Prelude.Tests.{if◌then◌else◌, leb, ltb}
use Prim.Native.Nat.{ℕ, ◌+◌, ◌-◌, ◌≤◌}
use mathlib.Core.Path.{◌≡◌}
use mathlib.Core.Bool.{Bool, true}
use native.Mathlib.Omega.{arith}

pub data ℤ : Type 0 where
  pos : ℕ → ℤ
  negsuc : ℕ → ℤ

infixl 30 ◌⊖◌
abbrev pub ◌⊖◌ : ℕ → ℕ → ℤ
a ⊖ b = if leb b a then pos (a - b) else negsuc (b - a - 1)

abbrev pub is_below : ℤ → ℕ → Bool
is_below (pos n) bound = ltb n bound
is_below (negsuc n) bound = true

pub is_below-⊖ : (a b bound : ℕ) → 1 ≤ bound → is_below (a ⊖ b) bound ≡ ltb a (b + bound)
is_below-⊖ a b bound h = ground arith
