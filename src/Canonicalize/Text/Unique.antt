-- ===== src/Canonicalize/Text/Unique.antt =====
-- A written string is read back whole, so it determines its text and where it ends.
use atb.Prelude.{
  ℕ, zero, suc, ◌+◌, ◌*◌, ◌/◌, ◌%◌, ◌≤◌, ◌<◌, ◌≡◌, refl, ap, sym, ◌∙◌, String, true, false, List,
  [], ◌∷◌, ◌++◌, Option, some, ltb, ltb→lt, ◌==◌, codes, length, append_assoc', arith, Bool-cases,
  ==_iff, inl, inr,
}
use mathlib.Core.Option
use text.Mathlib.TextEquality.{Char-path}
use atb.Canonicalize.Text.{
  hex_digit, hex_value, write_rune, write_runes, write_string, unescape, read_runes,
}

hex_value-digit : (d : ℕ) → d < 16 → hex_value (hex_digit d) ≡ d
unfolding hex_value hex_digit
hex_value-digit d h = ground arith

control_value : (r : ℕ) → 4096 * hex_value 48 + 256 * hex_value 48 + 16 * (r / 16) + r % 16 ≡ r
unfolding hex_value
control_value r = omega arith

-- What is read of the escape of `r` with the text `t` behind it.
abbrev Reads : ℕ → ℕ → List ℕ → Type 0
Reads n r t =
    read_runes (suc n) (write_rune r ++ t) ≡ Option.map (λ p. (r ∷ p.0, p.1)) (read_runes n t)

module _ (n : ℕ) (t : List ℕ) where
  -- A control character without an escape of its own is written as its code.
  read_control :
      (r : ℕ)
      → r < 32
      → write_rune r ≡ 92 ∷ 117 ∷ 48 ∷ 48 ∷ hex_digit (r / 16) ∷ hex_digit (r % 16) ∷ []
      → Reads n r t
  unfolding read_runes
  read_control r h e =
      rw (e, hex_value-digit (r / 16) (omega arith), hex_value-digit (r % 16) (omega arith))
        (rw (control_value r) refl)

  read_plain : (r : ℕ) → (r == 34) ≡ false → (r == 92) ≡ false → write_rune r ≡ r ∷ [] → Reads n r t
  unfolding read_runes
  read_plain r q b e = rw (e, q, b, read_runes) refl

  read_at : (c r : ℕ) → (r == c) ≡ true → Reads n c t → Reads n r t
  read_at c r e h = rw ((==_iff r c).0 e) h

  read_other :
      (r : ℕ)
      → (r == 34) ≡ false
      → (r == 92) ≡ false
      → (r == 8) ≡ false
      → (r == 12) ≡ false
      → (r == 10) ≡ false
      → (r == 13) ≡ false
      → (r == 9) ≡ false
      → Reads n r t
  read_other r q b e8 e12 e10 e13 e9 = elim (Bool-cases (ltb r 32)) [
    | inl low ↦
        read_control r (ltb→lt r 32 low)
          (unfold write_rune in rw (q, b, e8, e12, e10, e13, e9, low))
    | inr high ↦ read_plain r q b (unfold write_rune in rw (q, b, e8, e12, e10, e13, e9, high))
  ]

  -- One escape is read back as the rune that it stands for.
  read_rune : (r : ℕ) → Reads n r t
  unfolding write_rune read_runes unescape
  read_rune r = elim (Bool-cases (r == 34)) [
    | inl e ↦ read_at 34 r e refl
    | inr q ↦ elim (Bool-cases (r == 92)) [
      | inl e ↦ read_at 92 r e refl
      | inr b ↦ elim (Bool-cases (r == 8)) [
        | inl e ↦ read_at 8 r e refl
        | inr e8 ↦ elim (Bool-cases (r == 12)) [
          | inl e ↦ read_at 12 r e refl
          | inr e12 ↦ elim (Bool-cases (r == 10)) [
            | inl e ↦ read_at 10 r e refl
            | inr e10 ↦ elim (Bool-cases (r == 13)) [
              | inl e ↦ read_at 13 r e refl
              | inr e13 ↦ elim (Bool-cases (r == 9)) [
                | inl e ↦ read_at 9 r e refl
                | inr e9 ↦ read_other r q b e8 e12 e10 e13 e9
              ]
            ]
          ]
        ]
      ]
    ]
  ]

-- The escapes of a text, closed by a quote, are read back as the text, and reading stops there.
pub read_runes-write :
    (rs : List ℕ) (n : ℕ) (t : List ℕ)
    → length rs ≤ n
    → read_runes (suc n) (write_runes rs ++ 34 ∷ t) ≡ some (rs, t)
unfolding write_runes
read_runes-write [] n t h = unfold read_runes in refl
read_runes-write (r ∷ rs) zero t h = elim h [ ]
read_runes-write (r ∷ rs) (suc n) t h =
    rw
      (
        append_assoc' (write_rune r) (write_runes rs) (34 ∷ t),
        read_rune (suc n) (write_runes rs ++ 34 ∷ t) r,
        read_runes-write rs n t (omega arith),
      )
      refl

some_pair :
    (a b c d : List ℕ)
    → ◌≡◌ {A = Option (List ℕ × List ℕ)} (some (a, b)) (some (c, d))
    → (a ≡ c) × (b ≡ d)
some_pair a b c d h = ground arith

pub codes_injective : (s t : String) → codes s ≡ codes t → s ≡ t
codes_injective String.[] String.[] e = refl
codes_injective String.[] (String.◌∷◌ d t) e = cc
codes_injective (String.◌∷◌ c s) String.[] e = cc
codes_injective (String.◌∷◌ c s) (String.◌∷◌ d t) e =
    cc (Char-path c d (cc), codes_injective s t (cc))

-- Two written strings, each with some text behind it, agree only if both the strings and what
-- follows them agree.
pub write_string_unique :
    (s t : String) (x y : List ℕ) → write_string s ++ x ≡ write_string t ++ y → (s ≡ t) × (x ≡ y)
unfolding write_string
write_string_unique s t x y h =
    let n = length (codes s) + length (codes t) in
    let body : write_runes (codes s) ++ 34 ∷ x ≡ write_runes (codes t) ++ 34 ∷ y =
      rw
        (
          ← append_assoc' (write_runes (codes s)) (34 ∷ []) x,
          ← append_assoc' (write_runes (codes t)) (34 ∷ []) y,
        )
        (cc) in
    let left = read_runes-write (codes s) n x (omega arith) in
    let right = read_runes-write (codes t) n y (omega arith) in
    let both : some (codes s, x) ≡ some (codes t, y) =
      sym left ∙ ap (read_runes (suc n)) body ∙ right in
    let (texts, rest) = some_pair _ _ _ _ both in (codes_injective s t texts, rest)
