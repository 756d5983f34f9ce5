-- ===== src/Operations/Controls.antt =====
-- Which lifecycle actions the control plane offers for a worker: `resolve_worker_operations_controls`
-- of backend/src/argus/services/supervisor_operations.py, over a validated profile.
use vision.Common.{
  ℕ, ◌≡◌, ◌≢◌, ◌⊎◌, inl, inr, refl, String, Bool, true, false, not, Option, none, some, List, [],
  ◌∷◌, is_some, ◌&&◌, if◌then◌else◌, arith,
}
use vision.Operations.Requests.{
  OperationsLifecycleAction, start, stop, restart, drain, SupervisorMode, disabled, polling, push,
  Tables, OperationsLifecycleRequest, OperationsLifecycleRequestCreate, supervisor_disabled,
}
use vision.Operations.Requests.Dispatch.{
  Dispatcher, new_request, create_lifecycle_request, LifecycleDispatchResult, after_dispatch,
  is_disabled,
}

pub data LifecycleOwner : Type 0 where
  manual edge_supervisor central_supervisor : LifecycleOwner

pub data RestartPolicy : Type 0 where
  never on_failure always : RestartPolicy

pub record OperationsModeProfileConfig : Type 0 where
  pub lifecycle_owner : LifecycleOwner
  pub supervisor_mode : SupervisorMode
  pub restart_policy : RestartPolicy

pub record WorkerOperationsControls : Type 0 where
  pub lifecycle_owner : LifecycleOwner
  pub supervisor_mode : SupervisorMode
  pub restart_policy : RestartPolicy
  pub allowed_actions : List OperationsLifecycleAction
  pub detail : String

abbrev is_manual : LifecycleOwner → Bool
is_manual manual = true
is_manual edge_supervisor = false
is_manual central_supervisor = false

abbrev is_edge_owner : LifecycleOwner → Bool
is_edge_owner edge_supervisor = true
is_edge_owner manual = false
is_edge_owner central_supervisor = false

abbrev is_central_owner : LifecycleOwner → Bool
is_central_owner central_supervisor = true
is_central_owner manual = false
is_central_owner edge_supervisor = false

-- An assigned edge node takes the ownership from the central supervisor.
unfoldable pub owner_of : LifecycleOwner → Option ℕ → LifecycleOwner
owner_of owner assigned_edge_node_id =
    if is_some assigned_edge_node_id && is_central_owner owner then edge_supervisor else owner

abbrev owner_detail : LifecycleOwner → String
owner_detail manual = "Manual owns this worker process."
owner_detail edge_supervisor = "Edge Supervisor owns this worker process."
owner_detail central_supervisor = "Central Supervisor owns this worker process."

unfoldable pub resolve_worker_operations_controls :
    OperationsModeProfileConfig → Option ℕ → Bool → WorkerOperationsControls
unfolding owner_of
resolve_worker_operations_controls profile assigned_edge_node_id supervisor_healthy =
    let owner = owner_of profile.lifecycle_owner assigned_edge_node_id in
    let refused : String → WorkerOperationsControls = λ detail. record {
      lifecycle_owner = owner;
      supervisor_mode = profile.supervisor_mode;
      restart_policy = profile.restart_policy;
      allowed_actions = [];
      detail = detail;
    } in
    if is_manual owner
    then refused "Manual mode requires operator-started worker processes."
    else if is_disabled profile.supervisor_mode
    then refused "Supervisor mode is disabled."
    else if is_edge_owner owner && not (is_some assigned_edge_node_id)
    then refused "Edge supervisor ownership requires an assigned edge node."
    else if not supervisor_healthy
    then refused "Supervisor has not reported healthy runtime state."
    else record {
      lifecycle_owner = owner;
      supervisor_mode = profile.supervisor_mode;
      restart_policy = profile.restart_policy;
      allowed_actions = start ∷ stop ∷ restart ∷ drain ∷ [];
      detail =
          if is_some assigned_edge_node_id && is_central_owner profile.lifecycle_owner
          then "Assigned edge node overrides central supervisor ownership; edge supervisor owns this worker process."
          else owner_detail owner;
    }

-- All actions or none.
abbrev pub is_offered : List OperationsLifecycleAction → Bool
is_offered [] = false
is_offered (action ∷ actions) = true

after_dispatch-served :
    (db : Tables) (row : OperationsLifecycleRequest) (outcome : String ⊎ LifecycleDispatchResult)
    → (after_dispatch db row outcome).0 ≢ inl supervisor_disabled
after_dispatch-served db row (inl err) h = cc
after_dispatch-served db row (inr r) h = cc

create-served :
    (dispatcher : Option Dispatcher) (db : Tables) (tenant_id : ℕ)
    (payload : OperationsLifecycleRequestCreate) (subject : Option String) (mode : SupervisorMode)
    (id now : ℕ)
    → is_disabled mode ≡ false
    → (create_lifecycle_request dispatcher db tenant_id payload subject (some mode) id now).0
      ≢ inl supervisor_disabled
unfolding create_lifecycle_request
create-served dispatcher db tenant_id payload subject mode id now on =
    rw (on, create_lifecycle_request)
      (after_dispatch-served _ (new_request tenant_id payload subject id now) _)

offered-cases :
    (owner : LifecycleOwner) (mode : SupervisorMode) (policy : RestartPolicy) (assigned : Option ℕ)
    (healthy : Bool)
    → let profile : OperationsModeProfileConfig = record {
      lifecycle_owner = owner;
      supervisor_mode = mode;
      restart_policy = policy;
    } in
      let controls = resolve_worker_operations_controls profile assigned healthy in
      is_offered controls.allowed_actions ≡ true
      → (is_disabled mode ≡ false)
        × (healthy ≡ true)
        × (((controls.lifecycle_owner ≡ edge_supervisor) × (is_some assigned ≡ true))
            ⊎ ((controls.lifecycle_owner ≡ central_supervisor) × (assigned ≡ none)))
unfolding resolve_worker_operations_controls owner_of
offered-cases manual mode policy none healthy offered = cc
offered-cases manual mode policy (some node_id) healthy offered = cc
offered-cases owner disabled policy assigned healthy offered = ground arith
offered-cases edge_supervisor polling policy none healthy offered = cc
offered-cases edge_supervisor push policy none healthy offered = cc
offered-cases edge_supervisor polling policy (some node_id) false offered = cc
offered-cases edge_supervisor push policy (some node_id) false offered = cc
offered-cases edge_supervisor polling policy (some node_id) true offered =
    (refl, refl, inl (refl, refl))
offered-cases edge_supervisor push policy (some node_id) true offered =
    (refl, refl, inl (refl, refl))
offered-cases central_supervisor polling policy assigned false offered = ground arith
offered-cases central_supervisor push policy assigned false offered = ground arith
offered-cases central_supervisor polling policy none true offered = (refl, refl, inr (refl, refl))
offered-cases central_supervisor push policy none true offered = (refl, refl, inr (refl, refl))
offered-cases central_supervisor polling policy (some node_id) true offered =
    (refl, refl, inl (refl, refl))
offered-cases central_supervisor push policy (some node_id) true offered =
    (refl, refl, inl (refl, refl))

-- Where the controls of a worker offer an action, the supervisor is healthy, the owner is the edge's
-- supervisor with a node assigned or the central one without, and no request under the same profile is
-- refused because the supervisor is disabled.
pub offered-served :
    (profile : OperationsModeProfileConfig) (assigned : Option ℕ) (healthy : Bool)
    (dispatcher : Option Dispatcher) (db : Tables) (tenant_id : ℕ)
    (payload : OperationsLifecycleRequestCreate) (subject : Option String) (id now : ℕ)
    → is_offered (resolve_worker_operations_controls profile assigned healthy).allowed_actions
      ≡ true
    → let owner = (resolve_worker_operations_controls profile assigned healthy).lifecycle_owner in
      (healthy ≡ true)
      × (((owner ≡ edge_supervisor) × (is_some assigned ≡ true))
          ⊎ ((owner ≡ central_supervisor) × (assigned ≡ none)))
      × ((create_lifecycle_request dispatcher db tenant_id payload subject
            (some profile.supervisor_mode)
            id
            now).0
          ≢ inl supervisor_disabled)
offered-served profile assigned healthy dispatcher db tenant_id payload subject id now offered =
    let (on, up, owner) =
      offered-cases profile.lifecycle_owner profile.supervisor_mode profile.restart_policy assigned
        healthy offered in
    (
      up,
      owner,
      create-served dispatcher db tenant_id payload subject profile.supervisor_mode id now on,
    )
