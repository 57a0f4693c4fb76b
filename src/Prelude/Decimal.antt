-- ===== src/Prelude/Decimal.antt =====
-- The decimal text of an int (strconv.FormatInt and %d).
use Prim.Native.Nat.{ℕ, zero, suc, ◌/◌, ◌%◌}
use Prim.Native.String.{String}
use mathlib.Core.Bool.{true, false}
use mathlib.Core.List.{[], ◌∷◌}
use mathlib.Core.Option.{Option, none, some}
use atb.Prelude.Tests.{◌==◌}
use atb.Prelude.Lists.{get_elem?}
use atb.Prelude.Text.{concat}
use atb.Prelude.Int.{ℤ, pos, negsuc}

abbrev pub or_empty : Option String → String
or_empty none = ""
or_empty (some s) = s

unfoldable pub last_digit : ℕ → String
last_digit n =
    or_empty
      (get_elem? {A = String} ("0" ∷ "1" ∷ "2" ∷ "3" ∷ "4" ∷ "5" ∷ "6" ∷ "7" ∷ "8" ∷ "9" ∷ []) n)

-- The decimal digits of `n`; 20 rounds serve every int.
unfoldable pub digits : ℕ → ℕ → String
unfolding last_digit
digits zero n = ""
digits (suc fuel) n =
    let last = last_digit (n % 10) in
    elim (n / 10 == 0) [ true ↦ last | false ↦ concat (digits fuel (n / 10)) last ]

unfoldable pub decimal : ℕ → String
unfolding digits
decimal n = digits 20 n

unfoldable pub format_int : ℤ → String
unfolding decimal
format_int (pos n) = decimal n
format_int (negsuc n) = concat "-" (decimal (suc n))
