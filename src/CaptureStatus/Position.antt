-- ===== src/CaptureStatus/Position.antt =====
-- checkpointPosition (internal/proxy/capture.go), with strings.TrimSpace and strconv.ParseInt on the runes
-- of the text.
use atb.Prelude.{
  ℕ, ◌+◌, ◌-◌, ◌*◌, ◌^◌, String, Bool, true, false, ◌&&◌, List, [], ◌∷◌, Option, none, some, codes,
  ltb, leb, ◌==◌, if◌then◌else◌,
}
use atb.CaptureJournal.Space.{is_space_rune, reversed}

unfoldable pub drop_spaces : List ℕ → List ℕ
drop_spaces [] = []
drop_spaces (r ∷ rs) = elim (is_space_rune r) [ true ↦ drop_spaces rs | false ↦ r ∷ rs ]

unfoldable pub trimmed : List ℕ → List ℕ
unfolding drop_spaces
trimmed rs = reversed (drop_spaces (reversed (drop_spaces rs)))

-- The digits behind a value; none at another rune.
unfoldable pub digits : ℕ → List ℕ → Option ℕ
digits n [] = some n
digits n (r ∷ rs) = elim (leb 48 r && leb r 57) [
  | true ↦ digits (n * 10 + (r - 48)) rs
  | false ↦ none
]

unfoldable pub some_digits : List ℕ → Option ℕ
unfolding digits
some_digits [] = none
some_digits (r ∷ rs) = digits 0 (r ∷ rs)

unfoldable pub within : ℕ → Option ℕ → Option ℕ
within bound none = none
within bound (some n) = if ltb bound n then none else some n

-- ParseInt in base 10, and the refusal of negative values: behind a minus sign only zero is left.
unfoldable pub not_negative : List ℕ → Option ℕ
unfolding some_digits within
not_negative [] = none
not_negative (r ∷ rs) =
    if r == 45
    then within 0 (some_digits rs)
    else if r == 43
    then within (2 ^ 63 - 1) (some_digits rs)
    else within (2 ^ 63 - 1) (some_digits (r ∷ rs))

unfoldable pub start_or : List ℕ → Option ℕ
unfolding not_negative
start_or [] = some 0
start_or (r ∷ rs) = not_negative (r ∷ rs)

unfoldable pub same : List ℕ → List ℕ → Bool
same [] [] = true
same (a ∷ rest) (b ∷ bs) = a == b && same rest bs
same _ _ = false

unfoldable pub checkpoint_position : String → Option ℕ
unfolding trimmed start_or same
checkpoint_position position =
    let text = trimmed (codes position) in
    if same text (codes "start") then some 0 else start_or text
