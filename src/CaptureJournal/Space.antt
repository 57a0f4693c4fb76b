-- ===== src/CaptureJournal/Space.antt =====
-- strings.TrimSpace on the UTF-8 bytes of a line (used by internal/capturejournal/journal.go).
pub mod Laws
use atb.Prelude.{
  ℕ, String, codes, zero, suc, Bool, true, false, ◌&&◌, ◌||◌, List, [], ◌∷◌, ◌++◌, Option, none,
  some, length, leb, ◌==◌, if◌then◌else◌,
}

-- '\t', '\n', '\v', '\f', '\r' and ' '
abbrev pub is_ascii_space : ℕ → Bool
is_ascii_space b = b == 32 || (leb 9 b && leb b 13)

-- U+0085 and U+00A0
abbrev is_space_2 : ℕ → ℕ → Bool
is_space_2 a b = a == 194 && (b == 133 || b == 160)

-- U+1680, U+2000 to U+200A, U+2028, U+2029, U+202F, U+205F and U+3000
abbrev is_space_3 : ℕ → ℕ → ℕ → Bool
is_space_3 a b c =
    (a == 225 && (b == 154 && c == 128))
    || ((a == 226
          && ((b == 128 && ((leb 128 c && leb c 138) || (leb 168 c && leb c 169) || c == 175))
              || (b == 129 && c == 159)))
        || (a == 227 && (b == 128 && c == 128)))

-- What is behind a white space of two bytes or more at the front.
wide : ℕ → List ℕ → Option (List ℕ)
wide a [] = none
wide a (b ∷ []) = if is_space_2 a b then some [] else none
wide a (b ∷ c ∷ r) =
    if is_space_2 a b then some (c ∷ r) else if is_space_3 a b c then some r else none

-- The same at the end, where the bytes come in reverse.
wide_back : ℕ → List ℕ → Option (List ℕ)
wide_back c [] = none
wide_back c (b ∷ []) = if is_space_2 b c then some [] else none
wide_back c (b ∷ a ∷ r) =
    if is_space_2 b c then some (a ∷ r) else if is_space_3 a b c then some r else none

drop_front : List ℕ → Option (List ℕ)
unfolding wide
drop_front [] = none
drop_front (b ∷ r) = if is_ascii_space b then some r else wide b r

drop_back : List ℕ → Option (List ℕ)
unfolding wide_back
drop_back [] = none
drop_back (b ∷ r) = if is_ascii_space b then some r else wide_back b r

-- Drops as long as there is something to drop; a list's length is enough fuel, since each round takes a
-- byte at least.
drop_all : (List ℕ → Option (List ℕ)) → ℕ → List ℕ → List ℕ
drop_all drop zero s = s
drop_all drop (suc n) s = elim (drop s) [ none ↦ s | some r ↦ drop_all drop n r ]

abbrev pub reverse_onto : List ℕ → List ℕ → List ℕ
reverse_onto acc [] = acc
reverse_onto acc (b ∷ r) = reverse_onto (b ∷ acc) r

abbrev pub reversed : List ℕ → List ℕ
reversed s = reverse_onto [] s

unfoldable pub trim_space : List ℕ → List ℕ
unfolding drop_all drop_front drop_back
trim_space s =
    let front = drop_all drop_front (length s) s in
    reversed (drop_all drop_back (length front) (reversed front))

-- unicode.IsSpace
abbrev pub is_space_rune : ℕ → Bool
is_space_rune r =
    is_ascii_space r
    || (r == 133
        || (r == 160
            || (r == 5760
                || ((leb 8192 r && leb r 8202)
                    || (r == 8232 || (r == 8233 || (r == 8239 || (r == 8287 || r == 12288))))))))

blank_runes : List ℕ → Bool
blank_runes [] = true
blank_runes (r ∷ rs) = is_space_rune r && blank_runes rs

-- strings.TrimSpace(s) == ""
unfoldable pub is_blank : String → Bool
unfolding blank_runes
is_blank s = blank_runes (codes s)
