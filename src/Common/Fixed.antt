-- ===== src/Common/Fixed.antt =====
-- A concrete `Floats`, for running the models: signed thousandths.
use Prim.Native.Nat.{ℕ, zero, suc, ◌+◌, ◌-◌, ◌*◌, ◌/◌, ◌^◌}
use native.Mathlib.Omega.{arith}
use vision.Common.Tests.{if◌then◌else◌, ltb, leb}
use vision.Common.Float.{Floats, IsOrdered}

-- `negsuc n` is -(n + 1).
pub data ℤ : Type 0 where
  pos : ℕ → ℤ
  negsuc : ℕ → ℤ

abbrev pub pos_part : ℤ → ℕ
pos_part (pos n) = n
pos_part (negsuc n) = 0

abbrev pub neg_part : ℤ → ℕ
neg_part (pos n) = 0
neg_part (negsuc n) = suc n

-- a - b, as an integer.
abbrev pub sub_ℕ : ℕ → ℕ → ℤ
sub_ℕ a b = if leb b a then pos (a - b) else negsuc (b - a - 1)

-- The integer part of the square root, bit by bit.
unfoldable pub root_from : ℕ → ℕ → ℕ → ℕ
root_from zero n r = r
root_from (suc k) n r = let r' = r + 2 ^ k in root_from k n (if leb (r' * r') n then r' else r)

-- The quotient towards zero of (a - b) * 1000 and c - d.
unfoldable pub quotient : ℕ → ℕ → ℕ → ℕ → ℤ
quotient a b c d = sub_ℕ ((a * 1000 / c) + (b * 1000 / d)) ((a * 1000 / d) + (b * 1000 / c))

unfoldable pub product : ℕ → ℕ → ℕ → ℕ → ℤ
product a b c d = sub_ℕ ((a * c + b * d) / 1000) ((a * d + b * c) / 1000)

unfoldable pub multiply : ℤ → ℤ → ℤ
unfolding product
multiply a b = product (pos_part a) (neg_part a) (pos_part b) (neg_part b)

unfoldable pub power : ℤ → ℕ → ℤ
unfolding multiply
power a zero = pos 1000
power a (suc n) = multiply a (power a n)

instance abbrev pub fixed : Floats
fixed = record {
  Carrier = ℤ;
  decimal = λ n k. pos (n * 1000 / 10 ^ k);
  of_nat = λ n. pos (n * 1000);
  minus_infinity = negsuc 1000000000000;
  add = λ a b. sub_ℕ (pos_part a + pos_part b) (neg_part a + neg_part b);
  sub = λ a b. sub_ℕ (pos_part a + neg_part b) (neg_part a + pos_part b);
  mul = multiply;
  div = λ a b. quotient (pos_part a) (neg_part a) (pos_part b) (neg_part b);
  neg = λ a. sub_ℕ (neg_part a) (pos_part a);
  power = power;
  hypot = λ a b.
      let x = pos_part a + neg_part a in
      let y = pos_part b + neg_part b in pos (root_from 40 (x * x + y * y) 0);
  lt = λ a b. ltb (pos_part a + neg_part b) (pos_part b + neg_part a);
  le = λ a b. leb (pos_part a + neg_part b) (pos_part b + neg_part a);
}

pub fixed-IsOrdered : IsOrdered fixed
fixed-IsOrdered = record {
  lt_not_le = λ a b. ground arith;
  le_refl = λ a. ground arith;
  le_trans = λ a b c h k. ground arith;
  le_total = λ a b h. ground arith;
}
