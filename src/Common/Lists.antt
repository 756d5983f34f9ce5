-- ===== src/Common/Lists.antt =====
-- Lists as the programs use them: comprehensions, `sorted`, membership, predicates on all items.
use Prim.Native.Nat.{ℕ, zero, suc, ◌+◌, ◌-◌, ◌≤◌}
use mathlib.Core.Path.{◌≡◌, refl, subst, ap, ◌∙◌}
use mathlib.Core.Bool.{Bool, true, false, ◌&&◌, ◌||◌, false≢true}
use mathlib.Core.Logic.{inl, inr}
use mathlib.Core.List.{List, [], ◌∷◌, ◌++◌, map, Perm}
use mathlib.Core.List.Perm
use native.Mathlib.Omega.{arith}
use vision.Common.Equality.{Comparable, ◌==◌}
use vision.Common.Tests.{if◌then◌else◌, Bool-cases}

module _ {ℓ} {A : Type ℓ} where
  abbrev pub length : List A → ℕ
  length [] = 0
  length (x ∷ xs) = suc (length xs)

  -- `[x for x in xs if p(x)]`
  unfoldable pub keep : (A → Bool) → List A → List A
  keep p [] = []
  keep p (x ∷ xs) = if p x then x ∷ keep p xs else keep p xs

  -- `any(p(x) for x in xs)` and `all(p(x) for x in xs)`
  unfoldable pub any : (A → Bool) → List A → Bool
  any p [] = false
  any p (x ∷ xs) = p x || any p xs

  unfoldable pub all : (A → Bool) → List A → Bool
  all p [] = true
  all p (x ∷ xs) = p x && all p xs

  abbrev pub drop : ℕ → List A → List A
  drop zero xs = xs
  drop (suc n) [] = []
  drop (suc n) (x ∷ xs) = drop n xs

  abbrev pub take : ℕ → List A → List A
  take zero xs = []
  take (suc n) [] = []
  take (suc n) (x ∷ xs) = x ∷ take n xs

  pub length-append : (xs ys : List A) → length (xs ++ ys) ≡ length xs + length ys
  length-append [] ys = omega arith
  length-append (x ∷ xs) ys = omega (arith, length-append xs ys)

  pub length-keep-le : (p : A → Bool) (xs : List A) → length (keep p xs) ≤ length xs
  unfolding keep
  length-keep-le p [] = omega arith
  length-keep-le p (x ∷ xs) = ground (arith, length-keep-le p xs)

  pub length-drop : (n : ℕ) (xs : List A) → length (drop n xs) ≡ length xs - n
  length-drop zero xs = omega arith
  length-drop (suc n) [] = omega arith
  length-drop (suc n) (x ∷ xs) = omega (arith, length-drop n xs)

-- `x in xs`, of a list or a set.
unfoldable pub contains {ℓ} : {A : Type ℓ} ⦃e : Comparable A⦄ → List A → A → Bool
contains [] x = false
contains (y ∷ ys) x = y == x || contains ys x

-- A predicate on all items; it computes to a tuple.
abbrev pub All {ℓ κ} : {A : Type ℓ} → (A → Type κ) → List A → Type κ
All P [] = Unit
All P (x ∷ xs) = P x × All P xs

module _ {ℓ} {A : Type ℓ} where
  pub All-append {κ} : (P : A → Type κ) (xs ys : List A) → All P xs → All P ys → All P (xs ++ ys)
  All-append P [] ys h k = k
  All-append P (x ∷ xs) ys h k = (h.0, All-append P xs ys h.1 k)

  pub All-snoc {κ} : (P : A → Type κ) (xs : List A) (x : A) → All P xs → P x → All P (xs ++ x ∷ [])
  All-snoc P xs x h px = All-append P xs (x ∷ []) h (px, tt)

  pub All-unappend {κ} : (P : A → Type κ) (xs ys : List A) → All P (xs ++ ys) → All P xs × All P ys
  All-unappend P [] ys h = (tt, h)
  All-unappend P (x ∷ xs) ys h =
      let (left, right) = All-unappend P xs ys h.1 in ((h.0, left), right)

  pub All-imp {κ μ} :
      (P : A → Type κ) (Q : A → Type μ) (xs : List A) → ((x : A) → P x → Q x) → All P xs → All Q xs
  All-imp P Q [] f h = tt
  All-imp P Q (x ∷ xs) f h = (f x h.0, All-imp P Q xs f h.1)

  pub All-both {κ μ} :
      (P : A → Type κ) (Q : A → Type μ) (xs : List A)
      → All P xs
      → All Q xs
      → All (λ x. P x × Q x) xs
  All-both P Q [] h k = tt
  All-both P Q (x ∷ xs) h k = ((h.0, k.0), All-both P Q xs h.1 k.1)

  pub All-keep {κ} : (P : A → Type κ) (p : A → Bool) (xs : List A) → All P xs → All P (keep p xs)
  unfolding keep
  All-keep P p [] h = tt
  All-keep P p (x ∷ xs) h = ground (arith, All-keep P p xs)

  -- What a comprehension keeps passes its test.
  pub keep-All : (p : A → Bool) (xs : List A) → All (λ x. p x ≡ true) (keep p xs)
  unfolding keep
  keep-All p [] = tt
  keep-All p (x ∷ xs) = ground (arith, keep-All p xs)

  pub any-false : (p : A → Bool) (xs : List A) → any p xs ≡ false → All (λ x. p x ≡ false) xs
  unfolding any
  any-false p [] h = tt
  any-false p (x ∷ xs) h = ground (arith, any-false p xs)

  pub All-map {κ ℓ'} :
      {B : Type ℓ'} (f : A → B) (P : B → Type κ) (xs : List A)
      → All (λ x. P (f x)) xs
      → All P (map f xs)
  All-map f P [] h = tt
  All-map f P (x ∷ xs) h = (h.0, All-map f P xs h.1)

-- `sorted(xs, key=...)`: `before y x` is `key(y) < key(x)`. The sort is stable.
module _ {ℓ} {A : Type ℓ} (before : A → A → Bool) where
  unfoldable pub insort : A → List A → List A
  insort x [] = x ∷ []
  insort x (y ∷ ys) = if before y x then y ∷ insort x ys else x ∷ y ∷ ys

  unfoldable pub sorted : List A → List A
  unfolding insort
  sorted [] = []
  sorted (x ∷ xs) = insort x (sorted xs)

  pub insort-All {κ} : (P : A → Type κ) (x : A) (xs : List A) → P x → All P xs → All P (insort x xs)
  unfolding insort
  insort-All P x [] px h = (px, tt)
  insort-All P x (y ∷ ys) px h = ground (arith, insort-All P x ys px)

  pub sorted-All {κ} : (P : A → Type κ) (xs : List A) → All P xs → All P (sorted xs)
  unfolding sorted
  sorted-All P [] h = tt
  sorted-All P (x ∷ xs) h = insort-All P x (sorted xs) h.0 (sorted-All P xs h.1)

  insort-perm : (x : A) (xs : List A) → Perm (insort x xs) (x ∷ xs)
  unfolding insort
  insort-perm x [] = Perm.rfl
  insort-perm x (y ∷ ys) = elim (Bool-cases (before y x)) [
    | inl e ↦ rw (e, insort) (Perm.trans (Perm.cons y (insort-perm x ys)) (Perm.swap x y ys))
    | inr e ↦ rw (e, insort) Perm.rfl
  ]

  pub sorted-perm : (xs : List A) → Perm (sorted xs) xs
  unfolding sorted
  sorted-perm [] = Perm.rfl
  sorted-perm (x ∷ xs) = Perm.trans (insort-perm x (sorted xs)) (Perm.cons x (sorted-perm xs))

  length-insort : (x : A) (xs : List A) → length (insort x xs) ≡ suc (length xs)
  unfolding insort
  length-insort x [] = refl
  length-insort x (y ∷ ys) = ground (arith, length-insort x ys)

  pub length-sorted : (xs : List A) → length (sorted xs) ≡ length xs
  unfolding sorted
  length-sorted [] = refl
  length-sorted (x ∷ xs) = length-insort x (sorted xs) ∙ ap suc (length-sorted xs)

-- What holds of all sorted or kept items holds of the list's.
module _ {A : Type 0} where
  insort-All-inverse :
      (before : A → A → Bool) (P : A → Type 0) (x : A) (xs : List A)
      → All P (insort before x xs)
      → P x × All P xs
  unfolding insort
  insort-All-inverse before P x [] h = h
  insort-All-inverse before P x (y ∷ ys) h = ground (arith, insort-All-inverse before P x ys)

  pub sorted-All-inverse :
      (before : A → A → Bool) (P : A → Type 0) (xs : List A) → All P (sorted before xs) → All P xs
  unfolding sorted
  sorted-All-inverse before P [] h = tt
  sorted-All-inverse before P (x ∷ xs) h =
      let (hx, rest) = insort-All-inverse before P x (sorted before xs) h in
      (hx, sorted-All-inverse before P xs rest)

  pub keep-All-inverse :
      (q : A → Bool) (P Q : A → Type 0) (xs : List A)
      → ((x : A) → q x ≡ false → Q x)
      → ((x : A) → q x ≡ true → P x → Q x)
      → All P (keep q xs)
      → All Q xs
  unfolding keep
  keep-All-inverse q P Q [] out kept h = tt
  keep-All-inverse q P Q (x ∷ xs) out kept h =
      ground (arith, out x, kept x, keep-All-inverse q P Q xs out kept)

  pub any-append : (p : A → Bool) (xs ys : List A) → any p (xs ++ ys) ≡ (any p xs || any p ys)
  unfolding any
  any-append p [] ys = refl
  any-append p (x ∷ xs) ys = ground (arith, any-append p xs ys)

  pub any-both :
      (p q : A → Bool) (xs : List A)
      → any p xs ≡ true
      → All (λ x. q x ≡ true) xs
      → any (λ x. q x && p x) xs ≡ true
  unfolding any
  any-both p q [] h k = cc
  any-both p q (x ∷ xs) h k = ground (arith, h, k.0, any-both p q xs)

module _ {ℓ} {A : Type ℓ} ⦃e : Comparable A⦄ where
  -- No item stands twice.
  abbrev pub IsUnique : List A → Type 0
  IsUnique [] = Unit
  IsUnique (x ∷ xs) = (contains xs x ≡ false) × IsUnique xs

  pub contains-append :
      (xs ys : List A) (y : A) → contains (xs ++ ys) y ≡ (contains xs y || contains ys y)
  unfolding contains
  contains-append [] ys y = refl
  contains-append (x ∷ xs) ys y = ground (arith, contains-append xs ys y)

  pub All-at {κ} : (P : A → Type κ) (xs : List A) (y : A) → contains xs y ≡ true → All P xs → P y
  unfolding contains
  All-at P [] y c h = absurd (false≢true c)
  All-at P (x ∷ xs) y c h = elim (Bool-cases (x == y)) [
    | inl e' ↦ subst P ((e.same_iff x y).0 e') h.0
    | inr e' ↦ All-at P xs y (ground arith) h.1
  ]

  pub All-sub {κ} :
      (P : A → Type κ) (xs ys : List A)
      → ((y : A) → contains ys y ≡ true → contains xs y ≡ true)
      → All P xs
      → All P ys
  unfolding contains
  All-sub P xs [] sub h = tt
  All-sub P xs (y ∷ ys) sub h = (
    All-at P xs y (sub y (ground (arith, e.same_iff y y))) h,
    All-sub P xs ys (λ z c. sub z (ground (arith, e.same_iff y z))) h,
  )

  contains-of_cons :
      (x : A) (xs ys : List A)
      → All (λ y. contains xs y ≡ true) ys
      → All (λ y. contains (x ∷ xs) y ≡ true) ys
  unfolding contains
  contains-of_cons x xs ys h = All-imp _ _ ys (λ y c. ground arith) h

  pub All-self : (xs : List A) → All (λ x. contains xs x ≡ true) xs
  unfolding contains
  All-self [] = tt
  All-self (x ∷ xs) = (ground (arith, e.same_iff x x), contains-of_cons x xs xs (All-self xs))

  pub snoc-IsUnique :
      (xs : List A) (y : A) → contains xs y ≡ false → IsUnique xs → IsUnique (xs ++ y ∷ [])
  unfolding contains
  snoc-IsUnique [] y h u = (refl, tt)
  snoc-IsUnique (x ∷ xs) y h u =
      ground
        (arith, e.same_iff x y, e.same_iff y x, contains-append xs (y ∷ []) x, snoc-IsUnique xs y)

-- Sorting entries keeps which keys there are, and that none stands twice.
module _ {ℓ κ} {K : Type ℓ} {V : Type κ} ⦃e : Comparable K⦄ (before : K × V → K × V → Bool) where
  contains-keys-insort :
      (x : K × V) (xs : List (K × V)) (k : K)
      → contains (map (λ y. y.0) (insort before x xs)) k
        ≡ (x.0 == k || contains (map (λ y. y.0) xs) k)
  unfolding contains insort
  contains-keys-insort x [] k = refl
  contains-keys-insort x (y ∷ ys) k = ground (arith, contains-keys-insort x ys k)

  pub contains-keys-sorted :
      (xs : List (K × V)) (k : K)
      → contains (map (λ y. y.0) (sorted before xs)) k ≡ contains (map (λ y. y.0) xs) k
  unfolding contains sorted
  contains-keys-sorted [] k = refl
  contains-keys-sorted (x ∷ xs) k =
      ground (arith, contains-keys-insort x (sorted before xs) k, contains-keys-sorted xs k)

  insort-keys-IsUnique :
      (x : K × V) (xs : List (K × V))
      → contains (map (λ y. y.0) xs) x.0 ≡ false
      → IsUnique (map (λ y. y.0) xs)
      → IsUnique (map (λ y. y.0) (insort before x xs))
  unfolding contains insort
  insort-keys-IsUnique x [] h u = (refl, tt)
  insort-keys-IsUnique x (y ∷ ys) h u = ground (
    arith,
    e.same_iff x.0 y.0,
    e.same_iff y.0 x.0,
    contains-keys-insort x ys y.0,
    insort-keys-IsUnique x ys,
  )

  pub sorted-keys-IsUnique :
      (xs : List (K × V))
      → IsUnique (map (λ y. y.0) xs)
      → IsUnique (map (λ y. y.0) (sorted before xs))
  unfolding sorted
  sorted-keys-IsUnique [] u = tt
  sorted-keys-IsUnique (x ∷ xs) u =
      insort-keys-IsUnique x (sorted before xs) (contains-keys-sorted xs x.0 ∙ u.0)
        (sorted-keys-IsUnique xs u.1)
