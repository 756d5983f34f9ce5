-- ===== src/Operations/Requests/Claims.antt =====
-- Who holds a request: the supervisor that claimed it, for ever.
use vision.Common.{
  ℕ, ◌≡◌, ◌⊎◌, inl, inr, refl, ap, sym, ◌∙◌, subst, String, false, Option, none, some, List, ◌∷◌,
  contains, ◌==◌, compare_nat, arith, Bool-cases, nat_beq_iff, Option-cases, false≢true,
}
use vision.Operations.Requests.Rows.{load-id, load-contains}
use vision.Operations.Requests.{
  OperationsLifecycleRequest, OperationsLifecycleRequestCreate, OperationsLifecycleStatus,
  SupervisorMode, Tables, is_requested, load_lifecycle_request, claimed, claim_lifecycle_request,
  concluded, complete_lifecycle_request, apply_lifecycle_desired_state,
}
use vision.Operations.Assignments.{WorkerAssignment}
use vision.Operations.Requests.Dispatch.{
  Dispatcher, LifecycleDispatchResult, create_lifecycle_request, after_dispatch, dispatched,
  new_request, dispatch_lifecycle_request, mode_or_polling, is_disabled,
}
use vision.Operations.Requests.Held.{
  ids, holder_of, holder, IsWell, changed, claim-cases, complete-cases, changed-IsWell,
  changed-holder, claimed-holder,
}

-- One call of the control plane. A new row has a new id, and a completion a final status.
pub data Step : Tables → Tables → Type 0 where
  creates :
      {db : Tables} (dispatcher : Option Dispatcher) (tenant_id : ℕ)
      (payload : OperationsLifecycleRequestCreate) (subject : Option String)
      (profile : Option SupervisorMode) (id now : ℕ)
      → contains (ids db) id ≡ false
      → Step db (create_lifecycle_request dispatcher db tenant_id payload subject profile id now).1
  claims :
      {db : Tables} (tenant_id id : ℕ) (supervisor_id : String) (edge_node_id : Option ℕ) (now : ℕ)
      → Step db (claim_lifecycle_request db tenant_id id supervisor_id edge_node_id now).1
  completes :
      {db : Tables} (tenant_id id : ℕ) (supervisor_id : String) (status : OperationsLifecycleStatus)
      (report : Option ℕ) (err : Option String) (now : ℕ)
      → is_requested status ≡ false
      → Step db (complete_lifecycle_request db tenant_id id supervisor_id status report err now).1

pub data Steps : Tables → Tables → Type 0 where
  done : {db : Tables} → Steps db db
  then_step : {db db' db'' : Tables} → Step db db' → Steps db' db'' → Steps db db''

after_dispatch-cases :
    (db : Tables) (row : OperationsLifecycleRequest) (outcome : String ⊎ LifecycleDispatchResult)
    → ((after_dispatch db row outcome).1 ≡ db)
      ⊎ ((r : LifecycleDispatchResult) × ((after_dispatch db row outcome).1
            ≡ changed db row.id (dispatched r)))
after_dispatch-cases db row (inl err) = inl refl
after_dispatch-cases db row (inr r) = inr (r, refl)

add_new-IsWell :
    (assignments : List WorkerAssignment) (db : Tables) (t : ℕ)
    (payload : OperationsLifecycleRequestCreate) (subject : Option String) (id now : ℕ)
    → contains (ids db) id ≡ false
    → IsWell db
    → IsWell (record {
      assignments = assignments;
      requests = new_request t payload subject id now ∷ db.requests;
    })
add_new-IsWell assignments db t payload subject id now fresh w = record {
  unique = (fresh, w.unique);
  free = (inr refl, w.free);
}

add_new-holder :
    (assignments : List WorkerAssignment) (db : Tables) (t t' i : ℕ)
    (payload : OperationsLifecycleRequestCreate) (subject : Option String) (id now : ℕ) (s : String)
    → contains (ids db) id ≡ false
    → holder db t' i ≡ some s
    → holder
        (record {
          assignments = assignments;
          requests = new_request t payload subject id now ∷ db.requests;
        })
        t'
        i
      ≡ some s
unfolding load_lifecycle_request
add_new-holder assignments db t t' i payload subject id now s fresh held =
    elim (Option-cases (load_lifecycle_request db.requests t' i)) [
      | inl e ↦ let absurdity : none ≡ some s = sym (ap holder_of e) ∙ held in cc
      | inr (r, e) ↦
          let present = load-contains db.requests t' i r e in
          let apart : (id == i) ≡ false = elim (Bool-cases (id == i)) [
            | inl same ↦ absurd (
                false≢true (
                  sym (subst (λ k. contains (ids db) k ≡ false) ((nat_beq_iff id i).0 same) fresh)
                  ∙ present))
            | inr other ↦ other
          ] in
          ground (arith, apart, held)
    ]

-- What a step keeps.
abbrev Keeps : Tables → Tables → ℕ → ℕ → String → Type 0
Keeps db db' t i s = IsWell db' × ((holder db t i ≡ some s) → holder db' t i ≡ some s)

create-Keeps :
    (dispatcher : Option Dispatcher) (db : Tables) (t : ℕ)
    (payload : OperationsLifecycleRequestCreate) (subject : Option String)
    (profile : Option SupervisorMode) (id now t' i : ℕ) (s : String)
    → contains (ids db) id ≡ false
    → IsWell db
    → Keeps db (create_lifecycle_request dispatcher db t payload subject profile id now).1 t' i s
unfolding create_lifecycle_request
create-Keeps dispatcher db t payload subject profile id now t' i s fresh w =
    let mode = mode_or_polling profile in
    let row = new_request t payload subject id now in
    let assignments = apply_lifecycle_desired_state db.assignments t payload in
    let added : Tables = record { assignments = assignments; requests = row ∷ db.requests } in
    let outcome = dispatch_lifecycle_request dispatcher row mode in
    let well = add_new-IsWell assignments db t payload subject id now fresh w in
    let held = add_new-holder assignments db t t' i payload subject id now s fresh in
    elim (Bool-cases (is_disabled mode)) [
      | inl off ↦ rw (off, create_lifecycle_request) (w, λ h. h)
      | inr on ↦
          rw (on, create_lifecycle_request)
            (elim (after_dispatch-cases added row outcome) [
              | inl same ↦ subst (λ d. Keeps db d t' i s) (sym same) (well, held)
              | inr (r, same) ↦
                  subst (λ d. Keeps db d t' i s) (sym same)
                    (
                      changed-IsWell added id (dispatched r) (λ x. refl) (λ x h. h) well,
                      λ h.
                          changed-holder added id t' i (dispatched r) (λ x. (refl, refl))
                            (λ x. refl)
                          ∙ held h,
                    )
            ])
    ]

claim-Keeps :
    (db : Tables) (t id : ℕ) (supervisor_id : String) (edge_node_id : Option ℕ) (now t' i : ℕ)
    (s : String)
    → IsWell db
    → Keeps db (claim_lifecycle_request db t id supervisor_id edge_node_id now).1 t' i s
claim-Keeps db t id supervisor_id edge_node_id now t' i s w =
    elim (claim-cases db t id supervisor_id edge_node_id now) [
      | inl same ↦ subst (λ d. Keeps db d t' i s) (sym same) (w, λ h. h)
      | inr (row, loaded, waiting, same) ↦
          let own : load_lifecycle_request db.requests t row.id ≡ some row =
            subst (λ k. load_lifecycle_request db.requests t k ≡ some row)
              (sym (load-id db.requests t id row loaded).0) loaded in
          subst (λ d. Keeps db d t' i s) (sym same)
            (
              changed-IsWell db row.id (claimed supervisor_id now) (λ x. refl) (λ x h. inl refl) w,
              λ h. claimed-holder db row t' t i s supervisor_id now w own waiting h,
            )
    ]

complete-Keeps :
    (db : Tables) (t id : ℕ) (supervisor_id : String) (status : OperationsLifecycleStatus)
    (report : Option ℕ) (err : Option String) (now t' i : ℕ) (s : String)
    → is_requested status ≡ false
    → IsWell db
    → Keeps db (complete_lifecycle_request db t id supervisor_id status report err now).1 t' i s
complete-Keeps db t id supervisor_id status report err now t' i s final w =
    elim (complete-cases db t id supervisor_id status report err now) [
      | inl same ↦ subst (λ d. Keeps db d t' i s) (sym same) (w, λ h. h)
      | inr (row, same) ↦
          subst (λ d. Keeps db d t' i s) (sym same)
            (
              changed-IsWell db row.id (concluded status report err now) (λ x. refl)
                  (λ x h. inl final) w,
              λ h.
                  changed-holder db row.id t' i (concluded status report err now)
                    (λ x. (refl, refl)) (λ x. refl)
                  ∙ h,
            )
    ]

Step-Keeps : {db db' : Tables} (t i : ℕ) (s : String) → Step db db' → IsWell db → Keeps db db' t i s
Step-Keeps t i s (creates {db} dispatcher tenant_id payload subject profile id now fresh) w =
    create-Keeps dispatcher db tenant_id payload subject profile id now t i s fresh w
Step-Keeps t i s (claims {db} tenant_id id supervisor_id edge_node_id now) w =
    claim-Keeps db tenant_id id supervisor_id edge_node_id now t i s w
Step-Keeps t i s (completes {db} tenant_id id supervisor_id status report err now final) w =
    complete-Keeps db tenant_id id supervisor_id status report err now t i s final w

-- Once a supervisor holds a request, it holds it after every run of creations, claims and completions
-- by any supervisors of any tenants, if ids are unique and no waiting request is held at first.
pub Steps-holder :
    {db db' : Tables} (t i : ℕ) (s : String)
    → Steps db db'
    → IsWell db
    → holder db t i ≡ some s
    → holder db' t i ≡ some s
Steps-holder t i s done w held = held
Steps-holder t i s (then_step first_step rest) w held =
    let (well, keeps) = Step-Keeps t i s first_step w in Steps-holder t i s rest well (keeps held)
