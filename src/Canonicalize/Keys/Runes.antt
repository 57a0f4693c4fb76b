-- ===== src/Canonicalize/Keys/Runes.antt =====
-- The order of utf16Less by the runes of the keys, without their UTF-16 units
-- (internal/canonicalize/canonicalize.go).
use Prim.Native.Char.{code}
use atb.Prelude.{ℕ, ◌<◌, ◌≡◌, ◌⊎◌, ◌↔◌, inl, inr, String, true, List, [], ◌∷◌, ◌++◌, codes, arith}
use atb.Canonicalize.Keys.{utf16, units_of, units, less_units, utf16_less}
use atb.Canonicalize.Keys.Laws.{IsRune, code-IsRune}

-- Runes are ordered by their code points, but those from 0x10000 on come before those from 0xE000 to
-- 0xFFFF.
abbrev pub IsRuneBefore : ℕ → ℕ → Type 0
IsRuneBefore a b =
    ((a < b) × ((a < 0xe000) ⊎ ((b < 0x10000) ⊎ (0xffff < a))))
    ⊎ ((0xffff < a) × (0xdfff < b) × (b < 0x10000))

-- Keys are ordered by the first rune that differs; a key comes before those that go on behind it.
abbrev pub IsBefore : List ℕ → List ℕ → Type 0
IsBefore [] [] = ⊥
IsBefore [] (b ∷ t) = Unit
IsBefore (a ∷ s) [] = ⊥
IsBefore (a ∷ s) (b ∷ t) = IsRuneBefore a b ⊎ ((a ≡ b) × IsBefore s t)

less_units-utf16 :
    (a b : ℕ) (x y : List ℕ)
    → IsRune a
    → IsRune b
    → less_units (utf16 a ++ x) (utf16 b ++ y) ≡ true
    → IsRuneBefore a b ⊎ ((a ≡ b) × (less_units x y ≡ true))
unfolding less_units utf16
less_units-utf16 a b x y ha hb h = ground arith

utf16-less_units :
    (a b : ℕ) (x y : List ℕ)
    → IsRune a
    → IsRune b
    → IsRuneBefore a b ⊎ ((a ≡ b) × (less_units x y ≡ true))
    → less_units (utf16 a ++ x) (utf16 b ++ y) ≡ true
unfolding less_units utf16
utf16-less_units a b x y ha hb h = ground arith

some_units : (a : ℕ) (x : List ℕ) → less_units [] (utf16 a ++ x) ≡ true
unfolding utf16 less_units
some_units a x = ground arith

no_units : (a : ℕ) (x : List ℕ) → less_units (utf16 a ++ x) [] ≡ true → ⊥
unfolding utf16 less_units
no_units a x h = ground arith

units_of-IsBefore :
    (s t : String)
    → (less_units (units_of (codes s)) (units_of (codes t)) ≡ true) ↔ IsBefore (codes s) (codes t)
unfolding units_of less_units
units_of-IsBefore String.[] String.[] = (λ h. cc h, λ h. absurd h)
units_of-IsBefore String.[] (String.◌∷◌ d t) =
    (λ h. tt, λ h. some_units (code d) (units_of (codes t)))
units_of-IsBefore (String.◌∷◌ c s) String.[] =
    (λ h. absurd (no_units (code c) (units_of (codes s)) h), λ h. absurd h)
units_of-IsBefore (String.◌∷◌ c s) (String.◌∷◌ d t) =
    let rest = units_of-IsBefore s t in
    let first =
      less_units-utf16 (code c) (code d) (units_of (codes s)) (units_of (codes t)) (code-IsRune c)
        (code-IsRune d) in
    let back =
      utf16-less_units (code c) (code d) (units_of (codes s)) (units_of (codes t)) (code-IsRune c)
        (code-IsRune d) in
    (
      λ h. elim (first h) [ inl b ↦ inl b | inr (same, l) ↦ inr (same, rest.0 l) ],
      λ h. back (elim h [ inl b ↦ inl b | inr (same, l) ↦ inr (same, rest.1 l) ]),
    )

pub utf16_less-IsBefore : (a b : String) → (utf16_less a b ≡ true) ↔ IsBefore (codes a) (codes b)
unfolding utf16_less units
utf16_less-IsBefore a b = units_of-IsBefore a b
