-- ===== src/Operations/Requests/Rows.antt =====
-- Loading a request by its id, and changing the row that has it.
use vision.Common.{
  ℕ, ◌≡◌, inl, inr, refl, sym, ◌∙◌, subst, Bool, true, false, Option, none, some, List, [], ◌∷◌,
  map, contains, All, All-imp, ◌==◌, ◌&&◌, if◌then◌else◌, compare_nat, arith, Bool-cases,
  nat_beq_iff, IsUnique, false≢true,
}
use vision.Operations.Requests.{OperationsLifecycleRequest, update_request, load_lifecycle_request}

abbrev pub ids_of : List OperationsLifecycleRequest → List ℕ
ids_of table = map (λ row. row.id) table

pub update_request-All :
    (id : ℕ) (f : OperationsLifecycleRequest → OperationsLifecycleRequest)
    (P : OperationsLifecycleRequest → Type 0) (table : List OperationsLifecycleRequest)
    → ((row : OperationsLifecycleRequest) → P row → P (f row))
    → All P table
    → All P (update_request id f table)
unfolding update_request
update_request-All id f P [] keeps h = tt
update_request-All id f P (row ∷ rows) keeps h =
    ground (arith, keeps row, update_request-All id f P rows keeps)

pub load-All :
    (P : OperationsLifecycleRequest → Type 0) (table : List OperationsLifecycleRequest) (t i : ℕ)
    (row : OperationsLifecycleRequest)
    → All P table
    → load_lifecycle_request table t i ≡ some row
    → P row
unfolding load_lifecycle_request
load-All P [] t i row h e = cc
load-All P (r ∷ rs) t i row h e = elim (Bool-cases (r.tenant_id == t && r.id == i)) [
  | inl hit ↦ let same : r ≡ row = ground (arith, hit, e) in subst P same h.0
  | inr miss ↦ load-All P rs t i row h.1 (ground (arith, miss, e))
]

pub load-id :
    (table : List OperationsLifecycleRequest) (t i : ℕ) (row : OperationsLifecycleRequest)
    → load_lifecycle_request table t i ≡ some row
    → (row.id ≡ i) × (row.tenant_id ≡ t)
unfolding load_lifecycle_request
load-id [] t i row e = cc
load-id (r ∷ rs) t i row e = elim (Bool-cases (r.tenant_id == t && r.id == i)) [
  | inl hit ↦
      let same : r ≡ row = ground (arith, hit, e) in
      subst (λ x. (x.id ≡ i) × (x.tenant_id ≡ t)) same
        (ground (arith, hit, nat_beq_iff r.id i), ground (arith, hit, nat_beq_iff r.tenant_id t))
  | inr miss ↦ load-id rs t i row (ground (arith, miss, e))
]

abbrev pub change_if :
    Bool
    → (OperationsLifecycleRequest → OperationsLifecycleRequest)
    → Option OperationsLifecycleRequest
    → Option OperationsLifecycleRequest
change_if b f none = none
change_if b f (some row) = some (if b then f row else row)

pub load-update :
    (id : ℕ) (f : OperationsLifecycleRequest → OperationsLifecycleRequest)
    (table : List OperationsLifecycleRequest) (t i : ℕ)
    → ((row : OperationsLifecycleRequest)
        → ((f row).id ≡ row.id) × ((f row).tenant_id ≡ row.tenant_id))
    → load_lifecycle_request (update_request id f table) t i
      ≡ change_if (i == id) f (load_lifecycle_request table t i)
unfolding load_lifecycle_request update_request
load-update id f [] t i keeps = refl
load-update id f (row ∷ rows) t i keeps = ground (
  arith,
  (keeps row).0,
  (keeps row).1,
  load-update id f rows t i keeps,
  nat_beq_iff row.id id,
  nat_beq_iff row.id i,
  nat_beq_iff i id,
)

pub ids_of-update :
    (id : ℕ) (f : OperationsLifecycleRequest → OperationsLifecycleRequest)
    (table : List OperationsLifecycleRequest)
    → ((row : OperationsLifecycleRequest) → (f row).id ≡ row.id)
    → ids_of (update_request id f table) ≡ ids_of table
unfolding update_request
ids_of-update id f [] keeps = refl
ids_of-update id f (row ∷ rows) keeps = ground (arith, keeps row, ids_of-update id f rows keeps)

pub load-contains :
    (table : List OperationsLifecycleRequest) (t i : ℕ) (row : OperationsLifecycleRequest)
    → load_lifecycle_request table t i ≡ some row
    → contains (ids_of table) i ≡ true
unfolding load_lifecycle_request contains
load-contains [] t i row e = cc
load-contains (r ∷ rs) t i row e = ground (arith, e, load-contains rs t i row)

-- Where no id stands twice, a tenant's request is the only one with its id.
pub load-only :
    (table : List OperationsLifecycleRequest) (t t' i : ℕ) (row row' : OperationsLifecycleRequest)
    → IsUnique (ids_of table)
    → load_lifecycle_request table t i ≡ some row
    → load_lifecycle_request table t' i ≡ some row'
    → row ≡ row'
unfolding load_lifecycle_request
load-only [] t t' i row row' u e e' = cc
load-only (r ∷ rs) t t' i row row' u e e' = elim (Bool-cases (r.id == i)) [
  | inl hit ↦
      let same : r.id ≡ i = (nat_beq_iff r.id i).0 hit in
      let absent : contains (ids_of rs) i ≡ false =
        subst (λ k. contains (ids_of rs) k ≡ false) same u.0 in
      ground (arith, hit, e, e', absent, load-contains rs t i row, load-contains rs t' i row')
  | inr miss ↦ load-only rs t t' i row row' u.1 (ground (arith, miss, e)) (ground (arith, miss, e'))
]

load-cons :
    (r : OperationsLifecycleRequest) (rs : List OperationsLifecycleRequest)
    (x : OperationsLifecycleRequest)
    → contains (ids_of rs) r.id ≡ false
    → load_lifecycle_request rs x.tenant_id x.id ≡ some x
    → load_lifecycle_request (r ∷ rs) x.tenant_id x.id ≡ some x
unfolding load_lifecycle_request
load-cons r rs x absent e =
    let present = load-contains rs x.tenant_id x.id x e in
    elim (Bool-cases (r.id == x.id)) [
      | inl same ↦ absurd (
          false≢true (
            sym
              (subst (λ k. contains (ids_of rs) k ≡ false) ((nat_beq_iff r.id x.id).0 same) absent)
            ∙ present))
      | inr other ↦ ground (arith, other, e)
    ]

-- Where no id stands twice, every row is found by its id.
pub load-own :
    (table : List OperationsLifecycleRequest)
    → IsUnique (ids_of table)
    → All (λ r. load_lifecycle_request table r.tenant_id r.id ≡ some r) table
unfolding load_lifecycle_request
load-own [] u = tt
load-own (r ∷ rs) u = (
  ground (arith, nat_beq_iff r.id r.id, nat_beq_iff r.tenant_id r.tenant_id),
  All-imp (λ x. load_lifecycle_request rs x.tenant_id x.id ≡ some x)
      (λ x. load_lifecycle_request (r ∷ rs) x.tenant_id x.id ≡ some x) rs
      (λ x e. load-cons r rs x u.0 e) (load-own rs u.1),
)
