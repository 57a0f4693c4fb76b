-- ===== src/Canonicalize/Keys/Laws.antt =====
-- The order of keys is a strict total order on texts.
use Prim.Native.Nat.{Ordering, compare}
use Prim.Native.Char.{Char, char, code, IsLt}
use atb.Prelude.{
  ℕ, ◌<◌, ◌≡◌, ◌≢◌, ◌⊎◌, inl, inr, refl, sym, String, true, false, List, [], ◌∷◌, ◌++◌, codes,
  arith,
}
use atb.Canonicalize.Text.Unique.{codes_injective}
use atb.Canonicalize.Keys.{utf16, units_of, units, less_units, utf16_less}

less_units_irrefl : (xs : List ℕ) → less_units xs xs ≡ false
unfolding less_units
less_units_irrefl [] = refl
less_units_irrefl (x ∷ xs) = ground (arith, less_units_irrefl xs)

less_units_trans :
    (xs ys zs : List ℕ)
    → less_units xs ys ≡ true
    → less_units ys zs ≡ true
    → less_units xs zs ≡ true
unfolding less_units
less_units_trans [] [] zs p q = cc
less_units_trans [] (y ∷ ys) [] p q = cc
less_units_trans [] (y ∷ ys) (z ∷ zs) p q = refl
less_units_trans (x ∷ xs) [] zs p q = cc
less_units_trans (x ∷ xs) (y ∷ ys) [] p q = cc
less_units_trans (x ∷ xs) (y ∷ ys) (z ∷ zs) p q = ground (arith, less_units_trans xs ys zs)

less_units_connected :
    (xs ys : List ℕ) → less_units xs ys ≡ false → less_units ys xs ≡ false → xs ≡ ys
unfolding less_units
less_units_connected [] [] p q = refl
less_units_connected [] (y ∷ ys) p q = cc
less_units_connected (x ∷ xs) [] p q = cc
less_units_connected (x ∷ xs) (y ∷ ys) p q = ground (arith, less_units_connected xs ys)

-- The definition of `IsScalar`, clause for clause.
abbrev Both : Ordering → Ordering → Type 0
Both Ordering.lt o = IsLt o
Both Ordering.eq _ = ⊥
Both Ordering.gt _ = ⊥

abbrev Scalar : Ordering → Ordering → Ordering → Type 0
Scalar Ordering.lt _ _ = Unit
Scalar Ordering.eq o p = Both o p
Scalar Ordering.gt o p = Both o p

abbrev pub IsRune : ℕ → Type 0
IsRune n = (n < 0xd800) ⊎ ((0xdfff < n) × (n < 0x110000))

Scalar-cases :
    (n : ℕ) (o p q : Ordering)
    → compare n 0xd800 ≡ o
    → compare 0xdfff n ≡ p
    → compare n 0x110000 ≡ q
    → Scalar o p q
    → IsRune n
Scalar-cases n Ordering.lt p q a b c h = inl (ground arith)
Scalar-cases n Ordering.eq Ordering.lt Ordering.lt a b c h = inr (ground arith)
Scalar-cases n Ordering.gt Ordering.lt Ordering.lt a b c h = inr (ground arith)
Scalar-cases n _ _ _ a b c h = absurd h

pub code-IsRune : (c : Char) → IsRune (code c)
code-IsRune (char n h) =
    Scalar-cases n (compare n 0xd800) (compare 0xdfff n) (compare n 0x110000) refl refl refl h

-- The units of a rune show where it ends.
utf16_unique :
    (a b : ℕ) (x y : List ℕ) → IsRune a → IsRune b → utf16 a ++ x ≡ utf16 b ++ y → (a ≡ b) × (x ≡ y)
unfolding utf16
utf16_unique a b x y ha hb h = ground arith

utf16_nonempty : (a : ℕ) (x : List ℕ) → utf16 a ++ x ≢ []
unfolding utf16
utf16_nonempty a x h = ground arith

units_of_injective : (s t : String) → units_of (codes s) ≡ units_of (codes t) → codes s ≡ codes t
unfolding units_of
units_of_injective String.[] String.[] h = refl
units_of_injective String.[] (String.◌∷◌ d t) h =
    absurd (utf16_nonempty (code d) (units_of (codes t)) (sym h))
units_of_injective (String.◌∷◌ c s) String.[] h =
    absurd (utf16_nonempty (code c) (units_of (codes s)) h)
units_of_injective (String.◌∷◌ c s) (String.◌∷◌ d t) h =
    let (first, rest) = utf16_unique (code c) (code d) _ _ (code-IsRune c) (code-IsRune d) h in
    cc (first, units_of_injective s t rest)

pub utf16_less_irrefl : (a : String) → utf16_less a a ≡ false
unfolding utf16_less
utf16_less_irrefl a = less_units_irrefl (units a)

pub utf16_less_trans :
    (a b c : String) → utf16_less a b ≡ true → utf16_less b c ≡ true → utf16_less a c ≡ true
unfolding utf16_less
utf16_less_trans a b c p q = less_units_trans (units a) (units b) (units c) p q

-- Of two different keys one comes first.
pub utf16_less_connected : (a b : String) → utf16_less a b ≡ false → utf16_less b a ≡ false → a ≡ b
unfolding utf16_less units
utf16_less_connected a b p q =
    codes_injective a b
      (units_of_injective a b (less_units_connected (units_of (codes a)) (units_of (codes b)) p q))
