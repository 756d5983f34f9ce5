-- ===== src/Detector/Loop.antt =====
-- The loop over one class ends, and what it keeps.
use mathlib.Core.List.{Mem, mem-cons_self, mem-cons_of_mem}
use vision.Common.{
  ℕ, zero, suc, ◌≤◌, ◌≡◌, ◌⊎◌, inl, inr, subst, true, not, Option, none, some, List, [], ◌∷◌,
  length, length-keep-le, keep, keep-All, any, All, All-keep, if◌then◌else◌, Ensures, Ensures-imp,
  arith, Bool-cases,
}
use vision.Common.Float.{Floats, Float}
use vision.Detection.{Detection}
use vision.Detector.{is_apart, prepend_some, suppress_from}

module _ ⦃fl : Floats⦄ (t : Float) where
  -- Each kept detection is apart from those after it.
  abbrev pub IsApart : List Detection → Type 0
  IsApart [] = Unit
  IsApart (d ∷ ds) = All (λ e. is_apart t d e ≡ true) ds × IsApart ds

  -- A detection that was kept, or that overlaps a kept one.
  abbrev pub IsCovered : List Detection → Detection → Type 0
  IsCovered kept d = Mem d kept ⊎ (any (λ k. not (is_apart t k d)) kept ≡ true)

  pub record IsKept (P : Detection → Type 0) (detections kept : List Detection) : Type 0 where
    pub apart : IsApart kept
    pub covered : All (IsCovered kept) detections
    pub of_input : All P kept

  IsCovered-cons :
      (x : Detection) (kept : List Detection) (d : Detection)
      → IsCovered kept d
      → IsCovered (x ∷ kept) d
  unfolding any
  IsCovered-cons x kept d (inl m) = inl (mem-cons_of_mem x m)
  IsCovered-cons x kept d (inr h) = inr (ground (arith, h))

  uncover-keep :
      (x : Detection) (kept rest : List Detection)
      → All (IsCovered kept) (keep (is_apart t x) rest)
      → All (IsCovered (x ∷ kept)) rest
  unfolding keep any
  uncover-keep x kept [] h = tt
  uncover-keep x kept (d ∷ ds) h = elim (Bool-cases (is_apart t x d)) [
    | inl e ↦
        let both =
          subst
            (λ b.
              All (IsCovered kept)
                (if b then d ∷ keep (is_apart t x) ds else keep (is_apart t x) ds))
            e h in
        (IsCovered-cons x kept d both.0, uncover-keep x kept ds both.1)
    | inr e ↦
        let others =
          subst
            (λ b.
              All (IsCovered kept)
                (if b then d ∷ keep (is_apart t x) ds else keep (is_apart t x) ds))
            e h in
        (inr (ground (arith, e)), uncover-keep x kept ds others)
  ]

  prepend-Ensures :
      (P : Detection → Type 0) (x : Detection) (rest : List Detection) (o : Option (List Detection))
      → P x
      → Ensures (IsKept P (keep (is_apart t x) rest)) o
      → Ensures (λ kept. All (λ e. is_apart t x e ≡ true) kept) o
      → Ensures (IsKept P (x ∷ rest)) (prepend_some x o)
  prepend-Ensures P x rest none px h k = h
  prepend-Ensures P x rest (some kept) px h k = record {
    apart = (k, h.apart);
    covered = (inl mem-cons_self, uncover-keep x kept rest h.covered);
    of_input = (px, h.of_input);
  }

  -- With as much fuel as there are detections, the loop ends.
  pub suppress_from-IsKept :
      (P : Detection → Type 0) (fuel : ℕ) (detections : List Detection)
      → length detections ≤ fuel
      → All P detections
      → Ensures (IsKept P detections) (suppress_from fuel t detections)
  unfolding suppress_from
  suppress_from-IsKept P zero [] enough h = record { apart = tt; covered = tt; of_input = tt }
  suppress_from-IsKept P (suc fuel) [] enough h = record { apart = tt; covered = tt; of_input = tt }
  suppress_from-IsKept P zero (x ∷ rest) enough h = absurd (omega (arith, enough))
  suppress_from-IsKept P (suc fuel) (x ∷ rest) enough h =
      let left = keep (is_apart t x) rest in
      let fewer : length left ≤ fuel = omega (arith, enough, length-keep-le (is_apart t x) rest) in
      prepend-Ensures P x rest (suppress_from fuel t left) h.0
        (suppress_from-IsKept P fuel left fewer (All-keep P (is_apart t x) rest h.1))
        (Ensures-imp (IsKept (λ e. is_apart t x e ≡ true) left)
          (λ kept. All (λ e. is_apart t x e ≡ true) kept) (suppress_from fuel t left)
          (λ kept k. k.of_input)
          (suppress_from-IsKept (λ e. is_apart t x e ≡ true) fuel left fewer
            (keep-All (is_apart t x) rest)))
