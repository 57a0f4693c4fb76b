-- ===== src/Prelude/Text.antt =====
-- Go strings: native texts, where the program compares whole strings, and their code points.
use Prim.Native.Nat.{ℕ}
use Prim.Native.Char.{code}
use Prim.Native.String.{String, ◌++◌}
use mathlib.Core.List.{List, [], ◌∷◌}

-- The runes of a string, in order.
abbrev pub codes : String → List ℕ
codes String.[] = []
codes (String.◌∷◌ c s) = code c ∷ codes s

-- Go's `+` on strings.
abbrev pub concat : String → String → String
concat s t = s ++ t
