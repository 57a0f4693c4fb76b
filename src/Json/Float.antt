-- ===== src/Json/Float.antt =====
-- float64 by its bit pattern: Go's conversions between float64 and int, and the comparisons with
-- constants that the code makes. The patterns of non-negative floats are ordered as the floats are.
use atb.Prelude.{
  ℕ, zero, suc, ◌+◌, ◌-◌, ◌*◌, ◌/◌, ◌%◌, ◌^◌, ◌≡◌, refl, Bool, ◌&&◌, ltb, leb, ◌==◌, if◌then◌else◌,
}
use atb.Prelude.Int.{ℤ, pos, negsuc}

-- math.Abs: the sign bit is cleared.
abbrev pub abs : ℕ → ℕ
abs bits = bits % 2 ^ 63

-- Infinities and NaNs have the exponent 2047.
unfoldable pub is_finite : ℕ → Bool
is_finite bits = ltb (abs bits) 0x7ff0000000000000

-- The patterns of 1e21 and 1e-6.
abbrev pub one_e21 : ℕ
one_e21 = 0x444b1ae4d6e2ef50

abbrev pub one_e_minus6 : ℕ
one_e_minus6 = 0x3eb0c6f7a0b5ed8d

abbrev pub two : ℕ
two = 0x4000000000000000

abbrev pub three : ℕ
three = 0x4008000000000000

-- v == c for a positive constant c: only the pattern of c equals it.
abbrev pub eq_const : ℕ → ℕ → Bool
eq_const bits c = bits == c

-- The magnitude of int(v), towards zero.
magnitude : ℕ → ℕ
magnitude a =
    let e = a / 2 ^ 52 in
    let m = a % 2 ^ 52 + 2 ^ 52 in
    if e == 0 then 0 else if leb 1075 e then m * 2 ^ (e - 1075) else m / 2 ^ (1075 - e)

signed : Bool → ℕ → ℤ
signed negative zero = pos 0
signed negative (suc n) = if negative then negsuc n else pos (suc n)

-- int(v) as amd64 converts it: what does not fit gives the least int64.
unfoldable pub to_int : ℕ → ℤ
unfolding is_finite magnitude signed
to_int bits =
    let n = magnitude (abs bits) in
    if is_finite bits && ltb n (2 ^ 63) then signed (leb (2 ^ 63) bits) n else negsuc (2 ^ 63 - 1)

-- The number of binary digits of `n`, less one; 64 rounds serve every int64.
log2 : ℕ → ℕ → ℕ
log2 zero n = 0
log2 (suc fuel) n = let rest = log2 fuel (n / 2) in if ltb n 2 then 0 else suc rest

-- The exponent field moves in as the top digit of the mantissa, so a carry out of the mantissa by
-- rounding (to nearest, ties to even) raises the exponent.
magnitude_bits : ℕ → ℕ
unfolding log2
magnitude_bits zero = 0
magnitude_bits (suc k) =
    let n = suc k in
    let e = log2 64 n in
    let unit = 2 ^ (e - 52) in
    let q = n * 2 ^ (52 - e) / unit in
    let r = n * 2 ^ (52 - e) % unit in
    let up = if ltb unit (2 * r) then 1 else if 2 * r == unit then q % 2 else 0 in
    (e + 1022) * 2 ^ 52 + q + up

-- float64(n)
unfoldable pub of_int : ℤ → ℕ
unfolding magnitude_bits
of_int (pos n) = magnitude_bits n
of_int (negsuc n) = 2 ^ 63 + magnitude_bits (suc n)

of_int-three : of_int (pos 3) ≡ three
unfolding of_int
of_int-three = refl

of_int-rounds : of_int (pos (2 ^ 53 + 1)) ≡ of_int (pos (2 ^ 53))
unfolding of_int
of_int-rounds = refl

to_int-two_half : to_int 0x4004000000000000 ≡ pos 2
unfolding to_int
to_int-two_half = refl

to_int-negative : to_int 0xc008000000000000 ≡ negsuc 2
unfolding to_int
to_int-negative = refl
