-- ===== src/Detector/Classes.antt =====
-- The names of the classes: a set, in order.
use vision.Common.{
  ◌≡◌, refl, ◌∙◌, String, Bool, false, List, [], ◌∷◌, contains, sorted, insort, IsUnique, ◌==◌,
  ◌||◌, compare_string, eq_iff, arith,
}
use vision.Detector.{distinct}

contains-insort :
    (before : String → String → Bool) (x : String) (xs : List String) (y : String)
    → contains (insort before x xs) y ≡ (x == y || contains xs y)
unfolding contains insort
contains-insort before x [] y = refl
contains-insort before x (z ∷ zs) y = ground (arith, contains-insort before x zs y)

pub contains-sorted :
    (before : String → String → Bool) (xs : List String) (y : String)
    → contains (sorted before xs) y ≡ contains xs y
unfolding contains sorted
contains-sorted before [] y = refl
contains-sorted before (x ∷ xs) y =
    ground (arith, contains-insort before x (sorted before xs) y, contains-sorted before xs y)

insort-IsUnique :
    (before : String → String → Bool) (x : String) (xs : List String)
    → contains xs x ≡ false
    → IsUnique xs
    → IsUnique (insort before x xs)
unfolding contains insort
insort-IsUnique before x [] h u = (refl, tt)
insort-IsUnique before x (y ∷ ys) h u =
    ground
      (arith, eq_iff x y, eq_iff y x, contains-insort before x ys y, insort-IsUnique before x ys)

pub sorted-IsUnique :
    (before : String → String → Bool) (xs : List String) → IsUnique xs → IsUnique (sorted before xs)
unfolding sorted
sorted-IsUnique before [] u = tt
sorted-IsUnique before (x ∷ xs) u =
    insort-IsUnique before x (sorted before xs) (contains-sorted before xs x ∙ u.0)
      (sorted-IsUnique before xs u.1)

pub distinct-IsUnique : (xs : List String) → IsUnique (distinct xs)
unfolding distinct
distinct-IsUnique [] = tt
distinct-IsUnique (x ∷ xs) = ground (arith, distinct-IsUnique xs)

pub contains-distinct : (xs : List String) (y : String) → contains (distinct xs) y ≡ contains xs y
unfolding distinct contains
contains-distinct [] y = refl
contains-distinct (x ∷ xs) y = ground (arith, eq_iff x y, contains-distinct xs y)
