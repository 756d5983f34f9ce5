-- ===== src/Operations/Requests/Held.antt =====
-- Who holds a request, and what a change of one row does to it.
use vision.Common.{
  ℕ, ◌≡◌, ◌⊎◌, inl, inr, refl, ap, sym, ◌∙◌, subst, String, Bool, true, false, Option, none, some,
  List, All, ◌==◌, compare_nat, arith, Bool-cases, nat_beq_iff, IsUnique, Option-cases, false≢true,
}
use vision.Operations.Requests.Rows.{
  ids_of, update_request-All, load-All, change_if, load-update, ids_of-update, load-only,
}
use vision.Operations.Requests.{
  OperationsLifecycleRequest, OperationsLifecycleStatus, Tables, is_requested, update_request,
  load_lifecycle_request, claimed, claim_lifecycle_request, concluded, complete_lifecycle_request,
  is_free_for, request_matches_supervisor_scope,
}

abbrev pub ids : Tables → List ℕ
ids db = ids_of db.requests

abbrev pub holder_of : Option OperationsLifecycleRequest → Option String
holder_of none = none
holder_of (some row) = row.claimed_by_supervisor

abbrev pub holder : Tables → ℕ → ℕ → Option String
holder db tenant_id id = holder_of (load_lifecycle_request db.requests tenant_id id)

-- A waiting request has no holder.
abbrev pub IsFree : OperationsLifecycleRequest → Type 0
IsFree row = (is_requested row.status ≡ false) ⊎ (row.claimed_by_supervisor ≡ none)

pub record IsWell (db : Tables) : Type 0 where
  pub unique : IsUnique (ids db)
  pub free : All IsFree db.requests

abbrev pub changed : Tables → ℕ → (OperationsLifecycleRequest → OperationsLifecycleRequest) → Tables
changed db id f = record db { requests = update_request id f db.requests }

pub claim-cases :
    (db : Tables) (t i : ℕ) (supervisor_id : String) (edge_node_id : Option ℕ) (now : ℕ)
    → ((claim_lifecycle_request db t i supervisor_id edge_node_id now).1 ≡ db)
      ⊎ ((row : OperationsLifecycleRequest) × (load_lifecycle_request db.requests t i ≡ some row)
          × (is_requested row.status ≡ true)
          × ((claim_lifecycle_request db t i supervisor_id edge_node_id now).1
              ≡ changed db row.id (claimed supervisor_id now)))
unfolding claim_lifecycle_request
claim-cases db t i supervisor_id edge_node_id now =
    elim (Option-cases (load_lifecycle_request db.requests t i)) [
      | inl e ↦ inl (ground (arith, e))
      | inr (row, e) ↦ elim (Bool-cases (is_requested row.status)) [
        | inl waiting ↦ elim (Bool-cases (request_matches_supervisor_scope row edge_node_id)) [
          | inl scoped ↦ inr (row, e, waiting, ground (arith, e, waiting, scoped))
          | inr out ↦ inl (ground (arith, e, waiting, out))
        ]
        | inr over ↦ inl (ground (arith, e, over))
      ]
    ]

pub complete-cases :
    (db : Tables) (t i : ℕ) (supervisor_id : String) (status : OperationsLifecycleStatus)
    (report : Option ℕ) (err : Option String) (now : ℕ)
    → ((complete_lifecycle_request db t i supervisor_id status report err now).1 ≡ db)
      ⊎ ((row : OperationsLifecycleRequest) × ((complete_lifecycle_request db t i supervisor_id
              status report err now).1
            ≡ changed db row.id (concluded status report err now)))
unfolding complete_lifecycle_request
complete-cases db t i supervisor_id status report err now =
    elim (Option-cases (load_lifecycle_request db.requests t i)) [
      | inl e ↦ inl (ground (arith, e))
      | inr (row, e) ↦ elim (Bool-cases (is_free_for supervisor_id row.claimed_by_supervisor)) [
        | inl yes_free ↦ inr (row, ground (arith, e, yes_free))
        | inr held ↦ inl (ground (arith, e, held))
      ]
    ]

pub changed-IsWell :
    (db : Tables) (id : ℕ) (f : OperationsLifecycleRequest → OperationsLifecycleRequest)
    → ((row : OperationsLifecycleRequest) → (f row).id ≡ row.id)
    → ((row : OperationsLifecycleRequest) → IsFree row → IsFree (f row))
    → IsWell db
    → IsWell (changed db id f)
changed-IsWell db id f same keeps w = record {
  unique = subst IsUnique (sym (ids_of-update id f db.requests same)) w.unique;
  free = update_request-All id f IsFree db.requests keeps w.free;
}

-- A change that leaves the holder alone.
pub changed-holder :
    (db : Tables) (id t i : ℕ) (f : OperationsLifecycleRequest → OperationsLifecycleRequest)
    → ((row : OperationsLifecycleRequest)
        → ((f row).id ≡ row.id) × ((f row).tenant_id ≡ row.tenant_id))
    → ((row : OperationsLifecycleRequest)
        → (f row).claimed_by_supervisor ≡ row.claimed_by_supervisor)
    → holder (changed db id f) t i ≡ holder db t i
changed-holder db id t i f same keeps =
    ap holder_of (load-update id f db.requests t i same)
    ∙ step (i == id) (load_lifecycle_request db.requests t i)
  where
    step :
        (b : Bool) (o : Option OperationsLifecycleRequest)
        → holder_of (change_if b f o) ≡ holder_of o
    step b none = refl
    step true (some row) = keeps row
    step false (some row) = refl

-- A claim changes a row that is free, and so none that somebody holds.
pub claimed-holder :
    (db : Tables) (row : OperationsLifecycleRequest) (t t' i : ℕ) (s supervisor_id : String)
    (now : ℕ)
    → IsWell db
    → load_lifecycle_request db.requests t' row.id ≡ some row
    → is_requested row.status ≡ true
    → holder db t i ≡ some s
    → holder (changed db row.id (claimed supervisor_id now)) t i ≡ some s
claimed-holder db row t t' i s supervisor_id now w loaded waiting held =
    let f = claimed supervisor_id now in
    let after = load-update row.id f db.requests t i (λ r. (refl, refl)) in
    elim (Option-cases (load_lifecycle_request db.requests t i)) [
      | inl e ↦ let absurdity : none ≡ some s = sym (ap holder_of e) ∙ held in cc
      | inr (r, e) ↦ elim (Bool-cases (i == row.id)) [
        | inl same ↦
            let here : load_lifecycle_request db.requests t' i ≡ some row =
              subst (λ k. load_lifecycle_request db.requests t' k ≡ some row)
                (sym ((nat_beq_iff i row.id).0 same)) loaded in
            let only = load-only db.requests t t' i r row w.unique e here in
            let of_row : row.claimed_by_supervisor ≡ some s =
              sym (ap (λ x. x.claimed_by_supervisor) only) ∙ sym (ap holder_of e) ∙ held in
            elim (load-All IsFree db.requests t' row.id row w.free loaded) [
              | inl over ↦ absurd (false≢true (sym over ∙ waiting))
              | inr unheld ↦ cc
            ]
        | inr other ↦
            ap holder_of (
              after
              ∙ ap (λ b. change_if b f (load_lifecycle_request db.requests t i)) other
              ∙ ap (change_if false f) e)
            ∙ sym (ap holder_of e)
            ∙ held
      ]
    ]
