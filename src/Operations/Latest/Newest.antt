-- ===== src/Operations/Latest/Newest.antt =====
-- The first row of a camera in descending order of a time is its newest.
use mathlib.Core.List.{Mem, mem-cons_self, mem-cons_of_mem, eq-or-mem_of_mem-cons, not-mem-nil}
use mathlib.Core.List.Perm
use mathlib.Core.Logic.Or
use vision.Common.{
  sorted-All-inverse, keep-All-inverse, ℕ, ◌≤◌, ◌≡◌, ◌⊎◌, inl, inr, refl, ap, sym, subst, ◌∙◌, Bool,
  true, false, Option, none, some, List, [], ◌∷◌, Dict, lookup, member, insert, contains, keep,
  sorted, insort, insort-All, sorted-perm, All, All-imp, ◌&&◌, ◌==◌, if◌then◌else◌, compare_nat,
  arith, lookup-insert, Bool-cases, nat_beq_iff, is_some,
}
use vision.Operations.Latest.{is_newer, first_of, keep_first}

module _ {A : Type 0} where
  -- `o` is the newest of the rows that pass the test, if any does.
  abbrev pub IsNewest : (A → ℕ) → (A → Bool) → List A → Option A → Type 0
  IsNewest time p rows none = All (λ x. p x ≡ false) rows
  IsNewest time p rows (some r) =
      Mem r rows × (p r ≡ true) × All (λ x. (p x ≡ false) ⊎ (time x ≤ time r)) rows

  abbrev or_else : Option A → Option A → Option A
  or_else none o = o
  or_else (some a) o = some a

  member-lookup : (k : ℕ) (d : Dict ℕ A) → member k d ≡ is_some (lookup k d)
  unfolding member lookup
  member-lookup k [] = refl
  member-lookup k ((j, v) ∷ d) = ground (arith, member-lookup k d)

  lookup-keep_first :
      (camera : A → ℕ) (ids : List ℕ) (latest : Dict ℕ A) (rows : List A) (c : ℕ)
      → contains ids c ≡ true
      → lookup c (keep_first camera ids latest rows)
        ≡ or_else (lookup c latest) (first_of (keep (λ r. camera r == c) rows))
  unfolding keep_first keep
  lookup-keep_first camera ids latest [] c asked = ground arith
  lookup-keep_first camera ids latest (row ∷ rows) c asked = ground (
    arith,
    asked,
    lookup-keep_first camera ids (insert (camera row) row latest) rows c asked,
    lookup-keep_first camera ids latest rows c asked,
    lookup-insert (camera row) c row latest,
    member-lookup (camera row) latest,
    nat_beq_iff (camera row) c,
  )

  abbrev IsDescending : (A → ℕ) → List A → Type 0
  IsDescending time [] = Unit
  IsDescending time (x ∷ xs) = All (λ y. time y ≤ time x) xs × IsDescending time xs

  insort-IsDescending :
      (time : A → ℕ) (x : A) (xs : List A)
      → IsDescending time xs
      → IsDescending time (insort (is_newer time) x xs)
  unfolding insort
  insort-IsDescending time x [] h = (tt, tt)
  insort-IsDescending time x (y ∷ ys) h = elim (Bool-cases (is_newer time y x)) [
    | inl e ↦ rw e (
      insort-All (is_newer time) (λ z. time z ≤ time y) x ys (ground (arith, e)) h.0,
      insort-IsDescending time x ys h.1,
    )
    | inr e ↦
        let le : time y ≤ time x = ground (arith, e) in
        rw e ((le, All-imp _ _ ys (λ z hz. omega (arith, le, hz)) h.0), h)
  ]

  sorted-IsDescending : (time : A → ℕ) (xs : List A) → IsDescending time (sorted (is_newer time) xs)
  unfolding sorted
  sorted-IsDescending time [] = tt
  sorted-IsDescending time (x ∷ xs) =
      insort-IsDescending time x (sorted (is_newer time) xs) (sorted-IsDescending time xs)

  skip-IsNewest :
      (time : A → ℕ) (p : A → Bool) (x : A) (xs : List A) (o : Option A)
      → p x ≡ false
      → IsNewest time p xs o
      → IsNewest time p (x ∷ xs) o
  skip-IsNewest time p x xs none e h = (e, h)
  skip-IsNewest time p x xs (some r) e h = (mem-cons_of_mem x h.0, h.1, (inl e, h.2))

  keep-IsNewest :
      (time : A → ℕ) (p : A → Bool) (xs : List A)
      → IsDescending time xs
      → IsNewest time p xs (first_of (keep p xs))
  unfolding keep
  keep-IsNewest time p [] h = tt
  keep-IsNewest time p (x ∷ xs) h = elim (Bool-cases (p x)) [
    | inl e ↦ rw e (mem-cons_self, e, (inr (omega arith), All-imp _ _ xs (λ z hz. inr hz) h.0))
    | inr e ↦
        rw e (skip-IsNewest time p x xs (first_of (keep p xs)) e (keep-IsNewest time p xs h.1))
  ]

  of_sorted-IsNewest :
      (before : A → A → Bool) (time : A → ℕ) (p : A → Bool) (xs : List A) (o : Option A)
      → IsNewest time p (sorted before xs) o
      → IsNewest time p xs o
  of_sorted-IsNewest before time p xs none h = sorted-All-inverse before _ xs h
  of_sorted-IsNewest before time p xs (some r) h =
      ((Perm.mem_iff (sorted-perm before xs)).0 h.0, h.1, sorted-All-inverse before _ xs h.2)

  mem-keep : (q : A → Bool) (xs : List A) (r : A) → Mem r (keep q xs) → Mem r xs × (q r ≡ true)
  unfolding keep
  mem-keep q [] r h = absurd (not-mem-nil h)
  mem-keep q (x ∷ xs) r h = elim (Bool-cases (q x)) [
    | inl e ↦
        let m : Mem r (x ∷ keep q xs) =
          subst (λ b. Mem r (if b then x ∷ keep q xs else keep q xs)) e h in
        Or.elim (hlevel) (eq-or-mem_of_mem-cons m)
          (λ same. (subst (λ z. Mem z (x ∷ xs)) (sym same) mem-cons_self, ap q same ∙ e))
          (λ m'. let (mem, passed) = mem-keep q xs r m' in (mem-cons_of_mem x mem, passed))
    | inr e ↦
        let m : Mem r (keep q xs) =
          subst (λ b. Mem r (if b then x ∷ keep q xs else keep q xs)) e h in
        let (mem, passed) = mem-keep q xs r m in (mem-cons_of_mem x mem, passed)
  ]

  of_keep-IsNewest :
      (q : A → Bool) (time : A → ℕ) (p : A → Bool) (xs : List A) (o : Option A)
      → IsNewest time p (keep q xs) o
      → IsNewest time (λ x. q x && p x) xs o
  of_keep-IsNewest q time p xs none h =
      keep-All-inverse q (λ x. p x ≡ false) (λ x. (q x && p x) ≡ false) xs
        (λ x e. ground (arith, e)) (λ x e hx. ground (arith, e, hx)) h
  of_keep-IsNewest q time p xs (some r) h =
      let (mem, passed) = mem-keep q xs r h.0 in
      (
        mem,
        ground (arith, passed, h.1),
        keep-All-inverse q (λ x. (p x ≡ false) ⊎ (time x ≤ time r))
            (λ x. ((q x && p x) ≡ false) ⊎ (time x ≤ time r)) xs (λ x e. inl (ground (arith, e)))
            (λ x e hx. elim hx [ inl hf ↦ inl (ground (arith, e, hf)) | inr le ↦ inr le ]) h.2,
      )

  pub keep_first-IsNewest :
      (camera time : A → ℕ) (q : A → Bool) (table : List A) (ids : List ℕ) (c : ℕ)
      → contains ids c ≡ true
      → IsNewest time
          (λ x. q x && camera x == c)
          table
          (lookup c (keep_first camera ids [] (sorted (is_newer time) (keep q table))))
  unfolding lookup
  keep_first-IsNewest camera time q table ids c asked =
      let rows = sorted (is_newer time) (keep q table) in
      subst (IsNewest time (λ x. q x && camera x == c) table)
        (sym (lookup-keep_first camera ids [] rows c asked))
        (of_keep-IsNewest q time (λ x. camera x == c) table
          (first_of (keep (λ x. camera x == c) rows))
          (of_sorted-IsNewest (is_newer time) time (λ x. camera x == c) (keep q table)
            (first_of (keep (λ x. camera x == c) rows))
            (keep-IsNewest time (λ x. camera x == c) rows
              (sorted-IsDescending time (keep q table)))))
