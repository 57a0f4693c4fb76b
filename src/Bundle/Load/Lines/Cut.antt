-- ===== src/Bundle/Load/Lines/Cut.antt =====
-- The lines of a file and their contents, as relations (scanRawLines and the trimming of line ends in
-- internal/bundle/bundle.go).
use atb.Prelude.{
  ℕ, ◌≡◌, refl, sym, subst, false, List, [], ◌∷◌, ◌++◌, ◌==◌, arith, Bool-cases, inl, inr,
}
use atb.Bundle.Load.Lines.{attach, raw_lines, drop_last, trim, HasNoLineFeed}

-- `lines` are the lines of the bytes: each but the last has a line feed at its end and nowhere else, the
-- last may lack it, and none is empty.
pub data IsCut : List ℕ → List (List ℕ) → Type 0 where
  no_bytes : IsCut [] []
  last_line :
      (b : ℕ) (line : List ℕ) → HasNoLineFeed (b ∷ line) → IsCut (b ∷ line) ((b ∷ line) ∷ [])
  line_feed :
      (line rest : List ℕ) (lines : List (List ℕ))
      → HasNoLineFeed line
      → IsCut rest lines
      → IsCut (line ++ 10 ∷ rest) ((line ++ 10 ∷ []) ∷ lines)

-- The bytes end in `x`.
abbrev pub EndsIn : ℕ → List ℕ → Type 0
EndsIn x bytes = (front : List ℕ) × (bytes ≡ front ++ x ∷ [])

-- The bytes without an `x` at their end.
pub data IsCutOff (x : ℕ) : List ℕ → List ℕ → Type 0 where
  cut_off : (bytes : List ℕ) → IsCutOff x (bytes ++ x ∷ []) bytes
  nothing_off : (bytes : List ℕ) → ¬ EndsIn x bytes → IsCutOff x bytes bytes

-- The content of a line: without its line feed, and without a carriage return before that.
abbrev pub IsContent : List ℕ → List ℕ → Type 0
IsContent raw line = (middle : List ℕ) × IsCutOff 10 raw middle × IsCutOff 13 middle line

attach-IsCut :
    (b : ℕ) (bytes : List ℕ) (lines : List (List ℕ))
    → (b == 10) ≡ false
    → IsCut bytes lines
    → IsCut (b ∷ bytes) (attach b lines)
unfolding attach
attach-IsCut b _ _ h no_bytes = last_line b [] (h, tt)
attach-IsCut b _ _ h (last_line c line clean) = last_line b (c ∷ line) (h, clean)
attach-IsCut b _ _ h (line_feed line rest lines clean more) =
    line_feed (b ∷ line) rest lines (h, clean) more

pub raw_lines-IsCut : (bytes : List ℕ) → IsCut bytes (raw_lines bytes)
unfolding raw_lines
raw_lines-IsCut [] = no_bytes
raw_lines-IsCut (b ∷ bytes) = elim (Bool-cases (b == 10)) [
  | inl e ↦
      let same : 10 ≡ b = ground arith in
      rw (raw_lines, e)
        (subst (λ x. IsCut (x ∷ bytes) ((x ∷ []) ∷ raw_lines bytes)) same
          (line_feed [] bytes (raw_lines bytes) tt (raw_lines-IsCut bytes)))
  | inr e ↦ rw (raw_lines, e) (attach-IsCut b bytes (raw_lines bytes) e (raw_lines-IsCut bytes))
]

tail_of : {a b : ℕ} {x y : List ℕ} → a ∷ x ≡ b ∷ y → x ≡ y
tail_of e = cc

EndsIn-cons : (x b c : ℕ) (r : List ℕ) → EndsIn x (b ∷ c ∷ r) → EndsIn x (c ∷ r)
EndsIn-cons x b c r ([], e) = cc e
EndsIn-cons x b c r (y ∷ front, e) = (front, tail_of e)

IsCutOff-cons :
    (x b c : ℕ) (r line : List ℕ) (bytes : List ℕ)
    → bytes ≡ c ∷ r
    → IsCutOff x bytes line
    → IsCutOff x (b ∷ bytes) (b ∷ line)
IsCutOff-cons x b c r _ _ e (cut_off line) = cut_off (b ∷ line)
IsCutOff-cons x b c r _ _ e (nothing_off bytes none_at) = nothing_off (b ∷ bytes) λ ends.
    none_at (subst (EndsIn x) (sym e) (EndsIn-cons x b c r (subst (λ l. EndsIn x (b ∷ l)) e ends)))

single_end : (x b : ℕ) → EndsIn x (b ∷ []) → b ≡ x
single_end x b ([], e) = cc
single_end x b (y ∷ [], e) = cc e
single_end x b (y ∷ z ∷ front, e) = cc e

drop_last-IsCutOff : (x : ℕ) (bytes : List ℕ) → IsCutOff x bytes (drop_last x bytes)
unfolding drop_last
drop_last-IsCutOff x [] = nothing_off [] λ ends. no_end ends
  where
    no_end : {x : ℕ} → EndsIn x [] → ⊥
    no_end ([], e) = cc e
    no_end (y ∷ front, e) = cc e
drop_last-IsCutOff x (b ∷ []) = elim (Bool-cases (b == x)) [
  | inl e ↦
      let same : x ≡ b = ground arith in
      rw (drop_last, e) (subst (λ y. IsCutOff x (y ∷ []) []) same (cut_off []))
  | inr e ↦
      rw (drop_last, e)
        (nothing_off (b ∷ []) λ ends. let same = single_end x b ends in absurd (ground arith))
]
drop_last-IsCutOff x (b ∷ c ∷ r) =
    IsCutOff-cons x b c r (drop_last x (c ∷ r)) (c ∷ r) refl (drop_last-IsCutOff x (c ∷ r))

pub trim-IsContent : (raw : List ℕ) → IsContent raw (trim raw)
unfolding trim
trim-IsContent raw =
    (drop_last 10 raw, drop_last-IsCutOff 10 raw, drop_last-IsCutOff 13 (drop_last 10 raw))
