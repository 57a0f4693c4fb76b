-- ===== src/Canonicalize/Keys.antt =====
-- utf16Less of internal/canonicalize/canonicalize.go: the order in which an object's keys are written.
pub mod Laws
pub mod Runes
use atb.Prelude.{
  ℕ, ◌+◌, ◌-◌, ◌/◌, ◌%◌, String, Bool, true, false, List, [], ◌∷◌, ◌++◌, ltb, ◌==◌, codes,
  if◌then◌else◌,
}

-- utf16.Encode on one rune: a surrogate pair from 0x10000 on, U+FFFD for what is no scalar value.
utf16 : ℕ → List ℕ
utf16 r =
    if ltb r 0xd800
    then r ∷ []
    else if ltb r 0xe000
    then 0xfffd ∷ []
    else if ltb r 0x10000
    then r ∷ []
    else if ltb r 0x110000
    then (0xd800 + (r - 0x10000) / 0x400) ∷ (0xdc00 + (r - 0x10000) % 0x400) ∷ []
    else 0xfffd ∷ []

units_of : List ℕ → List ℕ
unfolding utf16
units_of [] = []
units_of (r ∷ rs) = utf16 r ++ units_of rs

-- utf16.Encode([]rune(s))
pub units : String → List ℕ
unfolding units_of
units s = units_of (codes s)

-- The loop of utf16Less and the comparison of lengths behind it.
pub less_units : List ℕ → List ℕ → Bool
less_units [] [] = false
less_units [] (y ∷ ys) = true
less_units (x ∷ xs) [] = false
less_units (x ∷ xs) (y ∷ ys) = let rest = less_units xs ys in if x == y then rest else ltb x y

unfoldable pub utf16_less : String → String → Bool
unfolding units less_units
utf16_less a b = less_units (units a) (units b)
