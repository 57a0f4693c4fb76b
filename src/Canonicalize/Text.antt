-- ===== src/Canonicalize/Text.antt =====
-- writeString of internal/canonicalize/canonicalize.go, and a reader of JSON strings that inverts it.
pub mod Unique
use atb.Prelude.{
  ℕ, zero, suc, ◌+◌, ◌-◌, ◌*◌, ◌/◌, ◌%◌, String, true, false, List, [], ◌∷◌, ◌++◌, Option, none,
  some, ltb, ◌==◌, codes, if◌then◌else◌,
}
use mathlib.Core.Option

-- A hexadecimal digit of %04x.
pub hex_digit : ℕ → ℕ
hex_digit d = if ltb d 10 then 48 + d else 87 + d

-- The escape of one rune.
pub write_rune : ℕ → List ℕ
unfolding hex_digit
write_rune r =
    if r == 34
    then 92 ∷ 34 ∷ []
    else if r == 92
    then 92 ∷ 92 ∷ []
    else if r == 8
    then 92 ∷ 98 ∷ []
    else if r == 12
    then 92 ∷ 102 ∷ []
    else if r == 10
    then 92 ∷ 110 ∷ []
    else if r == 13
    then 92 ∷ 114 ∷ []
    else if r == 9
    then 92 ∷ 116 ∷ []
    else if ltb r 32
    then 92 ∷ 117 ∷ 48 ∷ 48 ∷ hex_digit (r / 16) ∷ hex_digit (r % 16) ∷ []
    else r ∷ []

pub write_runes : List ℕ → List ℕ
unfolding write_rune
write_runes [] = []
write_runes (r ∷ rs) = write_rune r ++ write_runes rs

unfoldable pub write_string : String → List ℕ
unfolding write_runes
write_string s = 34 ∷ write_runes (codes s) ++ 34 ∷ []

hex_value : ℕ → ℕ
hex_value c = if ltb c 58 then c - 48 else c - 87

unescape : ℕ → ℕ
unescape c =
    if c == 98
    then 8
    else if c == 102
    then 12
    else if c == 110
    then 10
    else if c == 114
    then 13
    else if c == 116
    then 9
    else c

-- The body of a JSON string up to its closing quote, with the text that follows it.
pub read_runes : ℕ → List ℕ → Option (List ℕ × List ℕ)
read_runes zero text = none
read_runes (suc fuel) [] = none
read_runes (suc fuel) (c ∷ rest) = elim (c == 34) [
  | true ↦ some ([], rest)
  | false ↦ elim (c == 92) [
    | false ↦ Option.map (λ p. (c ∷ p.0, p.1)) (read_runes fuel rest)
    | true ↦ elim rest [
      | [] ↦ none
      | e ∷ after ↦ elim (e == 117) [
        | false ↦ Option.map (λ p. (unescape e ∷ p.0, p.1)) (read_runes fuel after)
        | true ↦ elim after [
          | a ∷ b ∷ x ∷ y ∷ more ↦
              Option.map
                (λ p. (
                  (4096 * hex_value a + 256 * hex_value b + 16 * hex_value x + hex_value y) ∷ p.0,
                  p.1,
                ))
                (read_runes fuel more)
          | _ ↦ none
        ]
      ]
    ]
  ]
]
