-- ===== src/Detection.antt =====
-- backend/src/argus/vision/types.py: the detection record that the vision pipeline passes along.
use vision.Common.{
  ℕ, ◌*◌, ◌^◌, String, Bool, Option, none, some, Dict, ◌&&◌, ◌||◌, not, true, false, str_eq,
  nat_beq,
}
use vision.Common.Float.{Floats, Float}

-- A scalar value of an attribute dictionary. A number, an integer or a finite float alike, is its
-- exact value: the numerator over two to the power of the halvings, with its sign. Not-a-number, the
-- infinities and nested containers are outside the model.
pub data Value : Type 0 where
  null : Value
  flag : Bool → Value
  number : (negative : Bool) (numerator halvings : ℕ) → Value
  text : String → Value

abbrev bool_beq : Bool → Bool → Bool
bool_beq true b = b
bool_beq false b = not b

-- Python compares True and False as 1 and 0, and an integer with a float by their exact values.
abbrev number_of : Value → Option (Bool × ℕ × ℕ)
number_of (flag true) = some (false, 1, 0)
number_of (flag false) = some (false, 0, 0)
number_of (number negative numerator halvings) = some (negative, numerator, halvings)
number_of null = none
number_of (text s) = none

abbrev number_beq : Option (Bool × ℕ × ℕ) → Option (Bool × ℕ × ℕ) → Bool
number_beq (some (m, a, s)) (some (n, b, t)) =
    nat_beq (a * 2 ^ t) (b * 2 ^ s) && (nat_beq a 0 || bool_beq m n)
number_beq (some x) none = false
number_beq none y = false

-- `==` of two values.
unfoldable pub value_beq : Value → Value → Bool
value_beq null null = true
value_beq (text a) (text b) = str_eq a b
value_beq a b = number_beq (number_of a) (number_of b)

module _ ⦃fl : Floats⦄ where
  abbrev pub BoundingBox : Type 0
  BoundingBox = Float × Float × Float × Float

  pub record Detection : Type 0 where
    pub class_name : String
    pub confidence : Float
    pub bbox : BoundingBox
    pub class_id : Option ℕ
    pub track_id : Option ℕ
    pub attributes : Dict String Value
    pub zone_id : Option String
    pub speed_kph : Option Float
    pub direction_deg : Option Float
