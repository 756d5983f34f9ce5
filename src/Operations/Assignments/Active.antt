-- ===== src/Operations/Assignments/Active.antt =====
-- At most one assignment of a camera is active, and it is the one that the listing by camera gives.
use vision.Common.{
  ℕ, ◌≤◌, ◌≡◌, inl, inr, refl, ap, ◌∙◌, subst, String, Bool, true, false, Option, none, some, List,
  [], ◌∷◌, Dict, lookup, insert, contains, length, keep, sorted, insort, length-keep-le, not, ◌==◌,
  ◌&&◌, compare_nat, arith, lookup-insert, Bool-cases, nat_beq_iff,
}
use vision.Operations.Latest.{is_newer, is_older, first_of}
use vision.Operations.Assignments.{
  WorkerAssignment, WorkerAssignmentCreate, list_assignments, keep_last,
  latest_assignments_by_camera, deactivate, is_for, active_existing, deactivate_existing,
  create_assignment, created,
}

-- The active assignments of a camera.
abbrev pub active_for : ℕ → ℕ → List WorkerAssignment → List WorkerAssignment
active_for tenant_id camera_id table =
    keep (λ row. row.active && is_for tenant_id camera_id row) table

deactivate-active :
    (id t c : ℕ) (table : List WorkerAssignment)
    → active_for t c (deactivate id table) ≡ keep (λ r. not (r.id == id)) (active_for t c table)
unfolding deactivate keep
deactivate-active id t c [] = refl
deactivate-active id t c (row ∷ rows) = ground (arith, deactivate-active id t c rows)

module _ {A : Type 0} where
  keep-insort-out :
      (b : A → A → Bool) (p : A → Bool) (x : A) (xs : List A)
      → p x ≡ false
      → keep p (insort b x xs) ≡ keep p xs
  unfolding keep insort
  keep-insort-out b p x [] out = rw out refl
  keep-insort-out b p x (y ∷ ys) out = ground (arith, out, keep-insort-out b p x ys out)

  keep-insort-only :
      (b : A → A → Bool) (p : A → Bool) (x : A) (xs : List A)
      → p x ≡ true
      → keep p xs ≡ []
      → keep p (insort b x xs) ≡ x ∷ []
  unfolding keep insort
  keep-insort-only b p x [] passed none_else = rw passed refl
  keep-insort-only b p x (y ∷ ys) passed none_else =
      ground (arith, passed, none_else, keep-insort-only b p x ys passed)

  length-nil : (xs : List A) → length xs ≤ 0 → xs ≡ []
  length-nil [] h = refl
  length-nil (x ∷ xs) h = absurd (omega (arith, h))

  -- Sorting does not change what passes a test that at most one item passes.
  keep-sorted :
      (b : A → A → Bool) (p : A → Bool) (xs : List A)
      → length (keep p xs) ≤ 1
      → keep p (sorted b xs) ≡ keep p xs
  unfolding keep sorted
  keep-sorted b p [] h = refl
  keep-sorted b p (x ∷ xs) h = elim (Bool-cases (p x)) [
    | inl e ↦
        let rest : keep p xs ≡ [] = length-nil (keep p xs) (ground (arith, e, h)) in
        let same = keep-sorted b p xs (rw rest (omega arith)) in
        keep-insort-only b p x (sorted b xs) e (same ∙ rest) ∙ ground (arith, e, rest)
    | inr e ↦
        keep-insort-out b p x (sorted b xs) e
        ∙ keep-sorted b p xs (ground (arith, e, h))
        ∙ ground (arith, e)
  ]

  keep-keep :
      (p q r : A → Bool) (xs : List A)
      → ((x : A) → (q x && p x) ≡ r x)
      → keep p (keep q xs) ≡ keep r xs
  unfolding keep
  keep-keep p q r [] same = refl
  keep-keep p q r (x ∷ xs) same = ground (arith, same x, keep-keep p q r xs same)

active_existing_lem :
    (table : List WorkerAssignment) (t c : ℕ)
    → length (active_for t c table) ≤ 1
    → active_existing table t c ≡ first_of (active_for t c table)
unfolding active_existing
active_existing_lem table t c h =
    let same =
      keep-keep (λ r. r.active) (is_for t c) (λ r. r.active && is_for t c r) table
        (λ r. ground arith) in
    ap first_of
      (keep-sorted (is_newer created) (λ r. r.active) (keep (is_for t c) table) (rw same h) ∙ same)

existing-active :
    (t c t' c' : ℕ) (table : List WorkerAssignment)
    → length (active_for t c (deactivate_existing (active_existing table t' c') table))
      ≤ length (active_for t c table)
existing-active t c t' c' table = step (active_existing table t' c')
  where
    step :
        (o : Option WorkerAssignment)
        → length (active_for t c (deactivate_existing o table)) ≤ length (active_for t c table)
    step none = omega arith
    step (some row) =
        rw (deactivate-active row.id t c table)
          (length-keep-le (λ r. not (r.id == row.id)) (active_for t c table))

deactivate_existing-active :
    (t c : ℕ) (table : List WorkerAssignment)
    → length (active_for t c table) ≤ 1
    → active_for t c (deactivate_existing (active_existing table t c) table) ≡ []
unfolding keep
deactivate_existing-active t c table h =
    rw (active_existing_lem table t c h) (step (active_for t c table) refl)
  where
    step :
        (rows : List WorkerAssignment)
        → active_for t c table ≡ rows
        → active_for t c (deactivate_existing (first_of rows) table) ≡ []
    step [] e = e
    step (row ∷ rest) e =
        let none_else : rest ≡ [] =
          length-nil rest (let h' = subst (λ xs. length xs ≤ 1) e h in omega (arith, h')) in
        deactivate-active row.id t c table
        ∙ ap (keep (λ r. not (r.id == row.id))) (e ∙ ap (λ xs. row ∷ xs) none_else)
        ∙ ground (arith, nat_beq_iff row.id row.id)

module _ (table : List WorkerAssignment) (tenant_id : ℕ) (payload : WorkerAssignmentCreate)
    (actor_subject : Option String) (id now : ℕ) where
  -- If no camera has two active assignments, a new assignment leaves it so, and it is then its
  -- camera's only active one.
  pub create_assignment-active :
      ((t c : ℕ) → length (active_for t c table) ≤ 1)
      → let (row, table') = create_assignment table tenant_id payload actor_subject id now in
        (active_for tenant_id payload.camera_id table' ≡ row ∷ [])
        × ((t c : ℕ) → length (active_for t c table') ≤ 1)
  unfolding create_assignment keep
  create_assignment-active single =
      let own =
        deactivate_existing-active tenant_id payload.camera_id table
          (single tenant_id payload.camera_id) in
      (
        ground (
          arith,
          own,
          nat_beq_iff tenant_id tenant_id,
          nat_beq_iff payload.camera_id payload.camera_id,
        ),
        λ t c. ground (
          arith,
          own,
          nat_beq_iff tenant_id t,
          nat_beq_iff payload.camera_id c,
          single t c,
          existing-active t c tenant_id payload.camera_id table,
        ),
      )

abbrev last_or : Option WorkerAssignment → List WorkerAssignment → Option WorkerAssignment
last_or o [] = o
last_or o (row ∷ rows) = last_or (some row) rows

lookup-keep_last :
    (ids : List ℕ) (latest : Dict ℕ WorkerAssignment) (rows : List WorkerAssignment) (c : ℕ)
    → contains ids c ≡ true
    → lookup c (keep_last ids latest rows)
      ≡ last_or (lookup c latest) (keep (λ r. r.camera_id == c) rows)
unfolding keep_last keep
lookup-keep_last ids latest [] c asked = refl
lookup-keep_last ids latest (row ∷ rows) c asked = ground (
  arith,
  asked,
  lookup-keep_last ids (insert row.camera_id row latest) rows c asked,
  lookup-keep_last ids latest rows c asked,
  lookup-insert row.camera_id c row latest,
  nat_beq_iff row.camera_id c,
)

active_of-camera :
    (table : List WorkerAssignment) (t c : ℕ)
    → length (active_for t c table) ≤ 1
    → keep (λ r. r.camera_id == c) (list_assignments table t true) ≡ active_for t c table
unfolding list_assignments
active_of-camera table t c h =
    let ours = keep (λ row. row.tenant_id == t) table in
    let same =
      keep-keep (λ r. r.active && r.camera_id == c) (λ r. r.tenant_id == t)
        (λ r. r.active && is_for t c r) table (λ r. ground arith) in
    keep-keep (λ r. r.camera_id == c) (λ r. r.active) (λ r. r.active && r.camera_id == c)
      (sorted (is_older created) ours) (λ r. refl)
    ∙ keep-sorted (is_older created) (λ r. r.active && r.camera_id == c) ours (rw same h)
    ∙ same

module _ (table : List WorkerAssignment) (tenant_id : ℕ) (payload : WorkerAssignmentCreate)
    (actor_subject : Option String) (id now : ℕ) where
  -- If no camera has two active assignments, a listing that asks for the camera of a new assignment
  -- gives the new assignment, whatever the times of creation are.
  pub create_assignment-latest :
      (camera_ids : List ℕ)
      → ((t c : ℕ) → length (active_for t c table) ≤ 1)
      → contains camera_ids payload.camera_id ≡ true
      → let (row, table') = create_assignment table tenant_id payload actor_subject id now in
        lookup payload.camera_id (latest_assignments_by_camera table' tenant_id camera_ids)
        ≡ some row
  unfolding latest_assignments_by_camera lookup
  create_assignment-latest camera_ids single asked =
      let r = create_assignment table tenant_id payload actor_subject id now in
      let after = create_assignment-active table tenant_id payload actor_subject id now single in
      let rows = list_assignments r.1 tenant_id true in
      lookup-keep_last camera_ids [] rows payload.camera_id asked
      ∙ ap (last_or none) (
          active_of-camera r.1 tenant_id payload.camera_id (after.1 tenant_id payload.camera_id)
          ∙ after.0)
