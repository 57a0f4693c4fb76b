-- ===== src/Bundle/Append/TypeName.antt =====
-- eventTypeRegexp: ^[a-z][a-z0-9_]*(\.[a-z][a-z0-9_]*)+$ (internal/bundle/bundle.go).
use atb.Prelude.{
  ℕ, ◌≡◌, refl, String, Bool, true, false, ◌&&◌, ◌||◌, List, [], ◌∷◌, leb, ◌==◌, codes,
  if◌then◌else◌,
}

is_lower : ℕ → Bool
is_lower r = leb 97 r && leb r 122

is_word : ℕ → Bool
unfolding is_lower
is_word r = is_lower r || leb 48 r && leb r 57 || r == 95

-- Whether a word has begun since the last dot, and whether there was a dot.
matches : Bool → Bool → List ℕ → Bool
unfolding is_word
matches begun dotted [] = begun && dotted
matches false dotted (r ∷ rs) = is_lower r && matches true dotted rs
matches true dotted (r ∷ rs) =
    let next = matches false true rs in
    let same = is_word r && matches true dotted rs in if r == 46 then next else same

unfoldable pub is_event_type : String → Bool
unfolding matches
is_event_type s = matches false false (codes s)

is_event_type_tests :
    (is_event_type "ai.tool.exec" ≡ true)
    × (is_event_type "atb.bundle.manifest" ≡ true)
    × (is_event_type "tool" ≡ false)
    × (is_event_type "ai." ≡ false)
    × (is_event_type "Ai.x" ≡ false)
    × (is_event_type "ai.2x" ≡ false)
unfolding is_event_type
is_event_type_tests = (refl, refl, refl, refl, refl, refl)
