-- ===== src/Common/Float.antt =====
-- The double-precision numbers of the programs, as an interface: a carrier with the operations and
-- comparisons that the code calls. `min` and `max` are Python's, which keep their first argument
-- unless the second is strictly better. The laws that a proof needs are a record of their own.
use Prim.Native.Nat.{ℕ}
use mathlib.Core.Path.{◌≡◌}
use mathlib.Core.Bool.{Bool, true, false, not}
use vision.Common.Tests.{if◌then◌else◌}

pub record Floats : Type 1 where
  pub Carrier : Type 0
  -- `decimal n k` is the literal n / 10 ^ k, and `of_nat` is `float(n)`.
  pub decimal : ℕ → ℕ → Carrier
  pub of_nat : ℕ → Carrier
  pub minus_infinity : Carrier
  pub add : Carrier → Carrier → Carrier
  pub sub : Carrier → Carrier → Carrier
  pub mul : Carrier → Carrier → Carrier
  pub div : Carrier → Carrier → Carrier
  pub neg : Carrier → Carrier
  pub power : Carrier → ℕ → Carrier
  pub hypot : Carrier → Carrier → Carrier
  pub lt : Carrier → Carrier → Bool
  pub le : Carrier → Carrier → Bool

module _ ⦃fl : Floats⦄ where
  abbrev pub Float : Type 0
  Float = fl.Carrier

  infixl 65 ◌+◌ ◌-◌
  infixl 70 ◌*◌ ◌/◌
  abbrev pub ◌+◌ : Float → Float → Float
  a + b = fl.add a b

  abbrev pub ◌-◌ : Float → Float → Float
  a - b = fl.sub a b

  abbrev pub ◌*◌ : Float → Float → Float
  a * b = fl.mul a b

  abbrev pub ◌/◌ : Float → Float → Float
  a / b = fl.div a b

  abbrev pub zero_float : Float
  zero_float = fl.decimal 0 0

  abbrev pub one_float : Float
  one_float = fl.decimal 1 0

  abbrev pub min_float : Float → Float → Float
  min_float a b = if fl.lt b a then b else a

  abbrev pub max_float : Float → Float → Float
  max_float a b = if fl.lt a b then b else a

-- What IEEE comparison guarantees of values that are not NaN: a total order.
pub record IsOrdered (fl : Floats) : Type 0 where
  pub lt_not_le : (a b : fl.Carrier) → fl.lt a b ≡ not (fl.le b a)
  pub le_refl : (a : fl.Carrier) → fl.le a a ≡ true
  pub le_trans : (a b c : fl.Carrier) → fl.le a b ≡ true → fl.le b c ≡ true → fl.le a c ≡ true
  pub le_total : (a b : fl.Carrier) → fl.le a b ≡ false → fl.le b a ≡ true
