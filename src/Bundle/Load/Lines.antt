-- ===== src/Bundle/Load/Lines.antt =====
-- scanRawLines and the trimming of line ends (internal/bundle/bundle.go).
pub mod Cut
use atb.Prelude.{
  ap, ◌∙◌, subst, append_assoc', false, ℕ, ◌≡◌, refl, inl, inr, Bool-cases, All, true, List, [],
  ◌∷◌, ◌++◌, ◌==◌, arith, if◌then◌else◌,
}

-- A byte in front of the first line.
unfoldable pub attach : ℕ → List (List ℕ) → List (List ℕ)
attach b [] = (b ∷ []) ∷ []
attach b (l ∷ ls) = (b ∷ l) ∷ ls

-- The tokens of scanRawLines over a whole input: each line with its line feed, and what is left behind
-- the last one.
unfoldable pub raw_lines : List ℕ → List (List ℕ)
unfolding attach
raw_lines [] = []
raw_lines (b ∷ bs) = let rest = raw_lines bs in if b == 10 then (b ∷ []) ∷ rest else attach b rest

-- Drops `x` from the end, if it is there.
drop_last : ℕ → List ℕ → List ℕ
drop_last x [] = []
drop_last x (b ∷ []) = if b == x then [] else b ∷ []
drop_last x (b ∷ c ∷ r) = b ∷ drop_last x (c ∷ r)

-- The line without '\n', then without '\r'.
unfoldable pub trim : List ℕ → List ℕ
unfolding drop_last
trim raw = drop_last 13 (drop_last 10 raw)

abbrev pub flat : List (List ℕ) → List ℕ
flat [] = []
flat (l ∷ ls) = l ++ flat ls

flat-attach : (b : ℕ) → (ls : List (List ℕ)) → flat (attach b ls) ≡ b ∷ flat ls
unfolding attach
flat-attach b [] = refl
flat-attach b (l ∷ ls) = refl

ten : (b : ℕ) → (b == 10) ≡ true → b ≡ 10
ten b e = ground arith

-- No byte of the input is lost or made up.
pub flat-raw_lines : (input : List ℕ) → flat (raw_lines input) ≡ input
unfolding raw_lines
flat-raw_lines [] = refl
flat-raw_lines (b ∷ bs) = elim (Bool-cases (b == 10)) [
  | inl e ↦ rw (e, flat-raw_lines bs, ten b e)
  | inr e ↦ rw (e, flat-attach, flat-raw_lines bs)
]

raw_lines-cons :
    (a : List ℕ) → (l : List ℕ) × (ls : List (List ℕ)) × (raw_lines (a ++ 10 ∷ []) ≡ l ∷ ls)
unfolding raw_lines
raw_lines-cons [] = (10 ∷ [], [], refl)
raw_lines-cons (b ∷ a) =
    let (l, ls, e) = raw_lines-cons a in
    elim (Bool-cases (b == 10)) [
      | inl t ↦ (b ∷ [], raw_lines (a ++ 10 ∷ []), rw t refl)
      | inr t ↦ (b ∷ l, ls, rw (t, e) refl)
    ]

attach-append :
    (b : ℕ) (ls ms : List (List ℕ)) (l : List ℕ) (rest : List (List ℕ))
    → ls ≡ l ∷ rest
    → attach b (ls ++ ms) ≡ attach b ls ++ ms
unfolding attach
attach-append b [] ms l rest e = cc
attach-append b (k ∷ ls) ms l rest e = refl

-- The lines behind a line feed do not depend on what is before it.
pub raw_lines-append :
    (a b : List ℕ) → raw_lines ((a ++ 10 ∷ []) ++ b) ≡ raw_lines (a ++ 10 ∷ []) ++ raw_lines b
unfolding raw_lines
raw_lines-append [] b = refl
raw_lines-append (x ∷ a) b = elim (Bool-cases (x == 10)) [
  | inl t ↦ rw (t, raw_lines-append a b) refl
  | inr t ↦
      let (l, ls, e) = raw_lines-cons a in
      rw (t, raw_lines-append a b) (attach-append x (raw_lines (a ++ 10 ∷ [])) (raw_lines b) l ls e)
]

abbrev pub HasNoLineFeed : List ℕ → Type 0
HasNoLineFeed line = All (λ b. (b == 10) ≡ false) line

pub raw_lines-line :
    (line : List ℕ) → HasNoLineFeed line → raw_lines (line ++ 10 ∷ []) ≡ (line ++ 10 ∷ []) ∷ []
unfolding raw_lines attach
raw_lines-line [] h = refl
raw_lines-line (b ∷ line) h = rw (h.0, raw_lines-line line h.1) refl

-- Empty, or ended by a line feed.
pub data IsComplete : List ℕ → Type 0 where
  no_line : IsComplete []
  some_lines : (a : List ℕ) → IsComplete (a ++ 10 ∷ [])

-- One more line.
pub raw_lines-more :
    (lines line : List ℕ)
    → IsComplete lines
    → HasNoLineFeed line
    → raw_lines (lines ++ (line ++ 10 ∷ [])) ≡ raw_lines lines ++ (line ++ 10 ∷ []) ∷ []
unfolding raw_lines
raw_lines-more _ line no_line h = raw_lines-line line h
raw_lines-more _ line (some_lines a) h =
    raw_lines-append a (line ++ 10 ∷ [])
    ∙ ap (λ l. raw_lines (a ++ 10 ∷ []) ++ l) (raw_lines-line line h)

pub IsComplete-more : (lines line : List ℕ) → IsComplete (lines ++ (line ++ 10 ∷ []))
IsComplete-more lines line =
    subst IsComplete (append_assoc' lines line (10 ∷ [])) (some_lines (lines ++ line))
