-- ===== src/Common/Maps.antt =====
-- A Python dictionary in insertion order, as an association list.
use mathlib.Core.Path.{◌≡◌, refl}
use mathlib.Core.Bool.{Bool, true, false}
use mathlib.Core.Option.{Option, none, some}
use mathlib.Core.List.{List, [], ◌∷◌, map}
use native.Mathlib.Omega.{arith}
use vision.Common.Tests.{if◌then◌else◌, is_some}
use vision.Common.Equality.{Comparable, ◌==◌}
use vision.Common.Lists.{All, All-imp}

abbrev pub Dict {ℓ κ} : Type ℓ → Type κ → Type (ℓ ⊔ κ)
Dict K V = List (K × V)

abbrev pub keys {ℓ κ} : {K : Type ℓ} {V : Type κ} → Dict K V → List K
keys d = map (λ e. e.0) d

module _ {ℓ κ} {K : Type ℓ} {V : Type κ} ⦃e : Comparable K⦄ where
  unfoldable pub lookup : K → Dict K V → Option V
  lookup k [] = none
  lookup k ((j, v) ∷ d) = if j == k then some v else lookup k d

  -- `d[k] = v`: an old key keeps its place, a new one goes to the end.
  unfoldable pub insert : K → V → Dict K V → Dict K V
  insert k v [] = (k, v) ∷ []
  insert k v ((j, w) ∷ d) = if j == k then (j, v) ∷ d else (j, w) ∷ insert k v d

  -- `d.pop(k, None)`
  unfoldable pub remove : K → Dict K V → Dict K V
  remove k [] = []
  remove k ((j, w) ∷ d) = if j == k then remove k d else (j, w) ∷ remove k d

  -- `k in d`
  unfoldable pub member : K → Dict K V → Bool
  member k [] = false
  member k ((j, w) ∷ d) = if j == k then true else member k d

  pub lookup-insert :
      (k j : K) (v : V) (d : Dict K V)
      → lookup j (insert k v d) ≡ (if k == j then some v else lookup j d)
  unfolding lookup insert
  lookup-insert k j v [] = refl
  lookup-insert k j v ((i, w) ∷ d) =
      ground (arith, e.same_iff k j, e.same_iff i k, e.same_iff i j, lookup-insert k j v d)

  pub lookup-remove :
      (k j : K) (d : Dict K V) → lookup j (remove k d) ≡ (if k == j then none else lookup j d)
  unfolding lookup remove
  lookup-remove k j [] = ground arith
  lookup-remove k j ((i, w) ∷ d) =
      ground (arith, e.same_iff k j, e.same_iff i k, e.same_iff i j, lookup-remove k j d)

  -- No key stands twice.
  abbrev pub IsDistinct : Dict K V → Type κ
  IsDistinct [] = Unit
  IsDistinct ((k, v) ∷ d) = (lookup k d ≡ none) × IsDistinct d

  pub insert-IsDistinct : (k : K) (v : V) (d : Dict K V) → IsDistinct d → IsDistinct (insert k v d)
  unfolding insert lookup
  insert-IsDistinct k v [] h = (refl, tt)
  insert-IsDistinct k v ((j, w) ∷ d) h =
      ground
        (arith, insert-IsDistinct k v d h.1, lookup-insert k j v d, e.same_iff j k, e.same_iff k j)

  pub remove-IsDistinct : (k : K) (d : Dict K V) → IsDistinct d → IsDistinct (remove k d)
  unfolding remove
  remove-IsDistinct k [] h = tt
  remove-IsDistinct k ((j, w) ∷ d) h =
      ground (arith, remove-IsDistinct k d h.1, lookup-remove k j d)

  pub is_some-lookup-cons :
      (k j : K) (v : V) (d : Dict K V)
      → is_some (lookup j d) ≡ true
      → is_some (lookup j ((k, v) ∷ d)) ≡ true
  unfolding lookup
  is_some-lookup-cons k j v d h = ground arith

  -- Every entry's key is in the dictionary.
  pub keys-member : (d : Dict K V) → All (λ x. is_some (lookup x.0 d) ≡ true) d
  unfolding lookup
  keys-member [] = tt
  keys-member ((k, v) ∷ d) = (
    ground (arith, e.same_iff k k),
    All-imp _ _ d (λ x. is_some-lookup-cons k x.0 v d) (keys-member d),
  )

  -- An entry is what a lookup of its key finds.
  pub entries-lookup : (d : Dict K V) → IsDistinct d → All (λ x. lookup x.0 d ≡ some x.1) d
  unfolding lookup
  entries-lookup [] u = tt
  entries-lookup ((k, v) ∷ d) u = (
    ground (arith, e.same_iff k k),
    All-imp _ _ d (λ x h. ground (arith, e.same_iff k x.0)) (entries-lookup d u.1),
  )
