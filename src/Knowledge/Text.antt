-- ===== src/Knowledge/Text.antt =====
-- Python's `str` as the list of its code points, with the methods that knowledge/chunker.py calls:
-- `str.split()` on whitespace, `sep.join(...)` and the blank test of `str.strip()`.
pub mod Words
use lumen_ai_support_agent.Prelude.{
  Bool, List, String, [], if◌then◌else◌, leb, nat_eq, true, ℕ, ◌&&◌, ◌++◌, ◌||◌, ◌∷◌,
}
use Prim.Native.Char.{Char, code}
use Prim.Native.String as Native

abbrev pub Text : Type 0
Text = List ℕ

abbrev pub code_points : String → Text
code_points Native.[] = []
code_points (Native.◌∷◌ c s) = code c ∷ code_points s

abbrev between : ℕ → ℕ → ℕ → Bool
between low high n = leb low n && leb n high

-- The characters for which `str.isspace` holds.
unfoldable pub is_space : ℕ → Bool
is_space c =
    between 9 13 c
    || (between 28 32 c
        || (nat_eq c 133
            || (nat_eq c 160
                || (nat_eq c 5760
                    || (between 8192 8202 c
                        || (between 8232 8233 c
                            || (nat_eq c 8239 || (nat_eq c 8287 || nat_eq c 12288))))))))

-- `not s.strip()`.
unfoldable pub is_blank : Text → Bool
is_blank [] = true
is_blank (c ∷ cs) = is_space c && is_blank cs

-- A word that has ended goes in front of the words after it, unless it is empty.
unfoldable pub emit : Text × List Text → List Text
emit ([], later) = later
emit (c ∷ word, later) = (c ∷ word) ∷ later

-- The characters up to the next space, and the words after that.
unfoldable pub scan : Text → Text × List Text
scan [] = ([], [])
scan (c ∷ cs) =
    let (word, later) = scan cs in
    if is_space c then ([], emit (word, later)) else (c ∷ word, later)

-- `s.split()`.
unfoldable pub split : Text → List Text
split s = emit (scan s)

-- `separator.join(texts)`.
unfoldable pub join : Text → List Text → Text
join separator [] = []
join separator (t ∷ []) = t
join separator (t ∷ u ∷ ts) = t ++ (separator ++ join separator (u ∷ ts))
