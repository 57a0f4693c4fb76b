-- ===== src/Bundle/Manifest/Scan.antt =====
-- fmt.Sscanf(v, "%d", &n), as manifestVersionToInt calls it (internal/bundle/bundle.go): white space
-- is skipped, a sign and decimal digits are read, and what follows them is ignored.
use atb.Prelude.{
  ℕ, zero, suc, ◌+◌, ◌-◌, ◌*◌, ◌^◌, ◌≡◌, refl, String, Bool, true, false, ◌&&◌, ◌||◌, List, [], ◌∷◌,
  Option, none, some, ltb, leb, ◌==◌, codes, if◌then◌else◌,
}
use atb.Prelude.Int.{ℤ, pos, negsuc}

-- The white space of fmt, but for the line feed, at which the scan fails.
is_space : ℕ → Bool
is_space r =
    leb 9 r && leb r 13
    || r == 32
    || r == 0x85
    || r == 0xa0
    || r == 0x1680
    || leb 0x2000 r && leb r 0x200a
    || r == 0x2028
    || r == 0x2029
    || r == 0x202f
    || r == 0x205f
    || r == 0x3000

is_digit : ℕ → Bool
is_digit r = leb 48 r && leb r 57

-- SkipSpace: a carriage return before a line feed is skipped with it.
skip_space : List ℕ → Option (List ℕ)
unfolding is_space
skip_space [] = some []
skip_space (r ∷ rs) =
    let rest = skip_space rs in if r == 10 then none else if is_space r then rest else some (r ∷ rs)

-- The value of the digits in front, and how many there are.
digits : ℕ → List ℕ → ℕ × ℕ
unfolding is_digit
digits acc [] = (acc, 0)
digits acc (r ∷ rs) =
    let (n, k) = digits (acc * 10 + (r - 48)) rs in if is_digit r then (n, suc k) else (acc, 0)

-- ParseInt to 64 bits.
in_range : Bool → ℕ × ℕ → Option ℤ
in_range negative (n, zero) = none
in_range negative (zero, suc k) = some (pos 0)
in_range negative (suc n, suc k) =
    if negative
    then (if leb (suc n) (2 ^ 63) then some (negsuc n) else none)
    else if ltb (suc n) (2 ^ 63)
    then some (pos (suc n))
    else none

signed : List ℕ → Option ℤ
unfolding digits in_range
signed [] = none
signed (r ∷ rs) =
    if r == 45
    then in_range true (digits 0 rs)
    else if r == 43
    then in_range false (digits 0 rs)
    else in_range false (digits 0 (r ∷ rs))

unfoldable pub scan_int : String → Option ℤ
unfolding skip_space signed
scan_int s = elim (skip_space (codes s)) [ none ↦ none | some rs ↦ signed rs ]

scan_int_tests :
    (scan_int "3" ≡ some (pos 3))
    × (scan_int " -12x" ≡ some (negsuc 11))
    × (scan_int "x" ≡ none)
    × (scan_int "9223372036854775808" ≡ none)
unfolding scan_int
scan_int_tests = (refl, refl, refl, refl)
