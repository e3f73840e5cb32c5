-- ===== src/Prelude/Table/Keys.antt =====
-- Writes by a text key, as `if` laws.
use lumen_ai_support_agent.Prelude.Tests.{if◌then◌else◌}
use lumen_ai_support_agent.Prelude.Table.{find, update_first}
use Prim.Native.String.{String}
use mathlib.Core.Path.{◌≡◌}
use mathlib.Core.Option
use mathlib.Core.Option.{Option, none, some}
use mathlib.Core.List.{List, [], ◌∷◌}
use native.Mathlib.Omega.{arith}
use text.Mathlib.Text.{◌==◌}
use text.Mathlib.TextEquality.{eq_iff}

module _ {ℓ} {A : Type ℓ} (key : A → String) (f : A → A) (keeps : (x : A) → key (f x) ≡ key x) where
  -- Reading by key `i` after a write at key `k`.
  pub find-update_key :
      (i k : String) (xs : List A)
      → find (λ x. key x == i) (update_first (λ x. key x == k) f xs)
        ≡ (if k == i then Option.map f (find (λ x. key x == i) xs) else find (λ x. key x == i) xs)
  find-update_key i k [] = ground arith
  find-update_key i k (x ∷ xs) =
      ground
        (arith, keeps x, eq_iff k i, eq_iff (key x) k, eq_iff (key x) i, find-update_key i k xs)
