-- ===== src/Prelude/Int.antt =====
-- Go's signed integers, as unbounded integers over the native numbers.
use Prim.Native.Nat.{ℕ}
use mathlib.Core.Path.{◌≡◌, refl, ap}
use native.Mathlib.Omega.{arith}
use mathlib.Core.Bool.{Bool, true, false}
use atb.Prelude.Tests.{leb, ltb, ◌==◌}

-- `negsuc n` is -(n + 1).
pub data ℤ : Type 0 where
  pos : ℕ → ℤ
  negsuc : ℕ → ℤ

abbrev pub leb_ℤ : ℤ → ℤ → Bool
leb_ℤ (pos a) (pos b) = leb a b
leb_ℤ (pos a) (negsuc b) = false
leb_ℤ (negsuc a) (pos b) = true
leb_ℤ (negsuc a) (negsuc b) = leb b a

abbrev pub ltb_ℤ : ℤ → ℤ → Bool
ltb_ℤ (pos a) (pos b) = ltb a b
ltb_ℤ (pos a) (negsuc b) = false
ltb_ℤ (negsuc a) (pos b) = true
ltb_ℤ (negsuc a) (negsuc b) = ltb b a

abbrev pub eqb_ℤ : ℤ → ℤ → Bool
eqb_ℤ (pos a) (pos b) = a == b
eqb_ℤ (pos a) (negsuc b) = false
eqb_ℤ (negsuc a) (pos b) = false
eqb_ℤ (negsuc a) (negsuc b) = a == b

pub leb_ℤ-refl : (a : ℤ) → leb_ℤ a a ≡ true
leb_ℤ-refl (pos a) = ground arith
leb_ℤ-refl (negsuc a) = ground arith

pub leb_ℤ-trans : (a b c : ℤ) → leb_ℤ a b ≡ true → leb_ℤ b c ≡ true → leb_ℤ a c ≡ true
leb_ℤ-trans (pos a) (pos b) (pos c) p q = ground arith
leb_ℤ-trans (pos a) (pos b) (negsuc c) p q = cc
leb_ℤ-trans (pos a) (negsuc b) c p q = cc
leb_ℤ-trans (negsuc a) (pos b) (pos c) p q = refl
leb_ℤ-trans (negsuc a) (pos b) (negsuc c) p q = cc
leb_ℤ-trans (negsuc a) (negsuc b) (pos c) p q = refl
leb_ℤ-trans (negsuc a) (negsuc b) (negsuc c) p q = ground arith

-- Of two integers one is smaller, or the other is at most it.
pub ltb_ℤ-leb_ℤ : (a b : ℤ) → ltb_ℤ a b ≡ true → leb_ℤ a b ≡ true
ltb_ℤ-leb_ℤ (pos a) (pos b) p = ground arith
ltb_ℤ-leb_ℤ (pos a) (negsuc b) p = cc
ltb_ℤ-leb_ℤ (negsuc a) (pos b) p = refl
ltb_ℤ-leb_ℤ (negsuc a) (negsuc b) p = ground arith

pub leb_ℤ-total : (a b : ℤ) → ltb_ℤ a b ≡ false → leb_ℤ b a ≡ true
leb_ℤ-total (pos a) (pos b) p = ground arith
leb_ℤ-total (pos a) (negsuc b) p = refl
leb_ℤ-total (negsuc a) (pos b) p = cc
leb_ℤ-total (negsuc a) (negsuc b) p = ground arith

pub eqb_ℤ→eq : (a b : ℤ) → eqb_ℤ a b ≡ true → a ≡ b
eqb_ℤ→eq (pos a) (pos b) p = ap pos (ground arith)
eqb_ℤ→eq (pos a) (negsuc b) p = cc
eqb_ℤ→eq (negsuc a) (pos b) p = cc
eqb_ℤ→eq (negsuc a) (negsuc b) p = ap negsuc (ground arith)

pub eqb_ℤ-refl : (a : ℤ) → eqb_ℤ a a ≡ true
eqb_ℤ-refl (pos a) = ground arith
eqb_ℤ-refl (negsuc a) = ground arith
