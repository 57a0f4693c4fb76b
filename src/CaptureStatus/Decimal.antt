-- ===== src/CaptureStatus/Decimal.antt =====
-- The position that a checkpoint is written with, read back (internal/proxy/capture.go).
use atb.Prelude.{
  ℕ, zero, suc, ◌+◌, ◌*◌, ◌-◌, ◌/◌, ◌%◌, ◌^◌, ◌<◌, ◌≤◌, ◌≡◌, refl, sym, ap, ◌∙◌, subst, String,
  true, false, List, [], ◌∷◌, ◌++◌, some, codes, concat, length, get_elem?, All, ltb, leb, ◌==◌,
  ==_iff, arith, inl, inr, Bool-cases, append_assoc', append-nil, length-append,
}
use Prim.Native.Char.{code}
use text.Mathlib.TextLemmas.{nil-append, cons-append}
use atb.Prelude.Int.{pos}
use atb.Prelude.Decimal.{or_empty, decimal, format_int, digits as write_digits, last_digit}
use atb.CaptureJournal.Space.{is_space_rune, reversed, reverse_onto}
use atb.CaptureStatus.Position.{
  digits, some_digits, within, not_negative, start_or, same, trimmed, drop_spaces,
  checkpoint_position,
}

codes-concat : (s t : String) → codes (concat s t) ≡ codes s ++ codes t
codes-concat String.[] t = ap codes (nil-append t)
codes-concat (String.◌∷◌ c s) t =
    ap codes (cons-append c s t) ∙ ap (λ l. code c ∷ l) (codes-concat s t)

-- The texts are the runes from `k` on.
abbrev AreRunes : ℕ → List String → Type 0
AreRunes k [] = Unit
AreRunes k (s ∷ ss) = (codes s ≡ k ∷ []) × AreRunes (suc k) ss

nth_rune :
    (k n : ℕ) (ss : List String)
    → AreRunes k ss
    → n < length ss
    → codes (or_empty (get_elem? ss n)) ≡ (k + n) ∷ []
nth_rune k n [] runes h = absurd (omega (arith, h))
nth_rune k zero (s ∷ ss) (r, runes) h = r ∙ ap (λ m. m ∷ []) (omega arith)
nth_rune k (suc n) (s ∷ ss) (r, runes) h =
    nth_rune (suc k) n ss runes (omega (arith, h)) ∙ ap (λ m. m ∷ []) (omega arith)

last_digit-codes : (d : ℕ) → d < 10 → codes (last_digit d) ≡ (48 + d) ∷ []
unfolding last_digit
last_digit-codes d h =
    nth_rune 48 d ("0" ∷ "1" ∷ "2" ∷ "3" ∷ "4" ∷ "5" ∷ "6" ∷ "7" ∷ "8" ∷ "9" ∷ [])
      (refl, (refl, (refl, (refl, (refl, (refl, (refl, (refl, (refl, (refl, tt)))))))))) h

abbrev pub IsDigit : ℕ → Type 0
IsDigit r = (48 ≤ r) × (r ≤ 57)

-- The digit in front is read.
digits-cons :
    (n d : ℕ) (rest : List ℕ) → d < 10 → digits n ((48 + d) ∷ rest) ≡ digits (n * 10 + d) rest
unfolding digits
digits-cons n d rest h =
    let low : leb 48 (48 + d) ≡ true = ground arith in
    let high : leb (48 + d) 57 ≡ true = ground arith in
    rw (digits, low, high) (ap (λ k. digits (n * 10 + k) rest) (omega arith))

module _ (fuel n : ℕ) where
  write_digits-one : n / 10 ≡ 0 → codes (write_digits (suc fuel) n) ≡ (48 + n % 10) ∷ []
  unfolding write_digits
  write_digits-one e =
      rw (write_digits, (==_iff (n / 10) 0).1 e) (last_digit-codes (n % 10) (omega arith))

  write_digits-more :
      (n / 10 == 0) ≡ false
      → codes (write_digits (suc fuel) n) ≡ codes (write_digits fuel (n / 10)) ++ (48 + n % 10) ∷ []
  unfolding write_digits
  write_digits-more e =
      rw (write_digits, e)
        (codes-concat (write_digits fuel (n / 10)) (last_digit (n % 10))
          ∙ ap (λ l. codes (write_digits fuel (n / 10)) ++ l)
              (last_digit-codes (n % 10) (omega arith)))

-- The digits of `n` are read as `n`.
read_digits :
    (fuel n : ℕ) (rest : List ℕ)
    → n < 10 ^ fuel
    → digits 0 (codes (write_digits fuel n) ++ rest) ≡ digits n rest
read_digits zero n rest h = unfold write_digits in ap (λ k. digits k rest) (omega (arith, h))
read_digits (suc fuel) n rest h = elim (Bool-cases (n / 10 == 0)) [
  | inl e ↦
      let small : n / 10 ≡ 0 = (==_iff (n / 10) 0).0 e in
      ap (λ l. digits 0 (l ++ rest)) (write_digits-one fuel n small)
      ∙ digits-cons 0 (n % 10) rest (omega arith)
      ∙ ap (λ k. digits k rest) (omega (arith, small))
  | inr e ↦
      ap (λ l. digits 0 (l ++ rest)) (write_digits-more fuel n e)
      ∙ ap (digits 0) (append_assoc' (codes (write_digits fuel (n / 10))) ((48 + n % 10) ∷ []) rest)
      ∙ read_digits fuel (n / 10) ((48 + n % 10) ∷ rest) (omega (arith, h))
      ∙ digits-cons (n / 10) (n % 10) rest (omega arith)
      ∙ ap (λ k. digits k rest) (omega arith)
]

-- All runes of a decimal text are digits, and there is one.
All-append : (xs ys : List ℕ) → All IsDigit xs → All IsDigit ys → All IsDigit (xs ++ ys)
All-append [] ys a b = b
All-append (x ∷ xs) ys (d, a) b = (d, All-append xs ys a b)

write_digits-IsDigit : (fuel n : ℕ) → All IsDigit (codes (write_digits fuel n))
write_digits-IsDigit zero n = unfold write_digits in tt
write_digits-IsDigit (suc fuel) n =
    let last : IsDigit (48 + n % 10) = (omega arith, omega arith) in
    elim (Bool-cases (n / 10 == 0)) [
      | inl e ↦
          subst (All IsDigit) (sym (write_digits-one fuel n ((==_iff (n / 10) 0).0 e))) (last, tt)
      | inr e ↦
          subst (All IsDigit) (sym (write_digits-more fuel n e))
            (All-append _ _ (write_digits-IsDigit fuel (n / 10)) (last, tt))
    ]

-- A digit is no white space, no sign and no letter.
not_space : (r : ℕ) → IsDigit r → is_space_rune r ≡ false
not_space r (low, high) = ground (arith, low, high)

drop_spaces-digits : (rs : List ℕ) → All IsDigit rs → drop_spaces rs ≡ rs
unfolding drop_spaces
drop_spaces-digits [] a = refl
drop_spaces-digits (r ∷ rs) (d, a) = rw (drop_spaces, not_space r d) refl

reverse_onto-IsDigit :
    (acc rs : List ℕ) → All IsDigit acc → All IsDigit rs → All IsDigit (reverse_onto acc rs)
reverse_onto-IsDigit acc [] a b = a
reverse_onto-IsDigit acc (r ∷ rs) a (d, b) = reverse_onto-IsDigit (r ∷ acc) rs (d, a) b

reverse_onto-twice :
    (acc back rs : List ℕ) → reverse_onto back (reverse_onto acc rs) ≡ reverse_onto (rs ++ back) acc
reverse_onto-twice acc back [] = refl
reverse_onto-twice acc back (r ∷ rs) = reverse_onto-twice (r ∷ acc) back rs

trimmed-digits : (rs : List ℕ) → All IsDigit rs → trimmed rs ≡ rs
unfolding trimmed
trimmed-digits rs a =
    ap (λ l. reversed (drop_spaces (reversed l))) (drop_spaces-digits rs a)
    ∙ ap reversed (drop_spaces-digits (reversed rs) (reverse_onto-IsDigit [] rs tt a))
    ∙ reverse_onto-twice [] [] rs
    ∙ append-nil rs

not_start : (rs : List ℕ) → All IsDigit rs → same rs (codes "start") ≡ false
unfolding same
not_start [] a = refl
not_start (r ∷ rs) ((low, high), a) =
    let other : (r == 115) ≡ false = ground (arith, low, high) in rw (same, other) refl

-- A text of digits that stands for a number within int64.
start_or-digits :
    (rs : List ℕ) (n : ℕ)
    → All IsDigit rs
    → some_digits rs ≡ some n
    → n < 2 ^ 63
    → start_or rs ≡ some n
unfolding start_or not_negative within some_digits
start_or-digits [] n a p h = cc p
start_or-digits (r ∷ rs) n ((low, high), a) p h =
    let minus : (r == 45) ≡ false = ground (arith, low, high) in
    let plus : (r == 43) ≡ false = ground (arith, low, high) in
    let fits : ltb (2 ^ 63 - 1) n ≡ false = ground (arith, h) in
    rw (start_or, not_negative, minus, plus, p, fits) refl

some_digits-cons :
    (rs : List ℕ) (n : ℕ) → 0 < length rs → digits 0 rs ≡ some n → some_digits rs ≡ some n
unfolding some_digits
some_digits-cons [] n h p = absurd (omega (arith, h))
some_digits-cons (r ∷ rs) n h p = p

write_digits-long : (fuel n : ℕ) → 0 < length (codes (write_digits (suc fuel) n))
write_digits-long fuel n = elim (Bool-cases (n / 10 == 0)) [
  | inl e ↦
      subst (λ l. 0 < length l) (sym (write_digits-one fuel n ((==_iff (n / 10) 0).0 e)))
        (omega arith)
  | inr e ↦
      subst (λ l. 0 < length l) (sym (write_digits-more fuel n e))
        (omega (arith, length-append (codes (write_digits fuel (n / 10))) ((48 + n % 10) ∷ [])))
]

-- A position within int64 that is written to a checkpoint is read back from it.
pub checkpoint_position-format_int :
    (n : ℕ) → n < 2 ^ 63 → checkpoint_position (format_int (pos n)) ≡ some n
unfolding checkpoint_position format_int decimal
checkpoint_position-format_int n h =
    let text = codes (write_digits 20 n) in
    let all : All IsDigit text = write_digits-IsDigit 20 n in
    let read : digits 0 text ≡ some n =
      ap (digits 0) (sym (append-nil text))
      ∙ read_digits 20 n [] (omega (arith, h))
      ∙ unfold digits in refl in
    let value =
      start_or-digits text n all (some_digits-cons text n (write_digits-long 19 n) read) h in
    rw (trimmed-digits text all, not_start text all) value
