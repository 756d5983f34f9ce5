-- ===== src/Operations/Requests.antt =====
-- The lifecycle requests of backend/src/argus/services/supervisor_operations.py. The database is a
-- record of two tables, a call is one transaction, and the ids and times are arguments. A refusal of
-- a call is an HTTPException or a ValueError; a value of `request_payload` is its text.
pub mod Dispatch
pub mod Poll
pub mod Rows
pub mod Held
pub mod Claims
use vision.Common.{
  ℕ, String, Bool, true, false, not, Option, none, some, List, [], ◌∷◌, Dict, insert, keep, sorted,
  take, ◌⊎◌, inl, inr, ◌==◌, ◌&&◌, if◌then◌else◌, compare_nat, compare_string, compare_option,
}
use vision.Operations.Latest.{is_newer, is_older, first_of, keep_first}
use vision.Operations.Assignments.{
  WorkerDesiredState, supervised, not_desired, WorkerAssignment, created, is_for,
}

pub data OperationsLifecycleAction : Type 0 where
  start stop restart drain : OperationsLifecycleAction

pub data OperationsLifecycleStatus : Type 0 where
  requested acknowledged completed failed : OperationsLifecycleStatus

pub data SupervisorMode : Type 0 where
  disabled polling push : SupervisorMode

pub record OperationsLifecycleRequest : Type 0 where
  pub id : ℕ
  pub tenant_id : ℕ
  pub camera_id : ℕ
  pub edge_node_id : Option ℕ
  pub assignment_id : Option ℕ
  pub action : OperationsLifecycleAction
  pub status : OperationsLifecycleStatus
  pub requested_by_subject : Option String
  pub requested_at : ℕ
  pub acknowledged_at : Option ℕ
  pub claimed_by_supervisor : Option String
  pub claimed_at : Option ℕ
  pub completed_at : Option ℕ
  pub admission_report_id : Option ℕ
  pub error : Option String
  pub request_payload : Dict String String

pub record OperationsLifecycleRequestCreate : Type 0 where
  pub camera_id : ℕ
  pub edge_node_id : Option ℕ
  pub assignment_id : Option ℕ
  pub action : OperationsLifecycleAction
  pub request_payload : Dict String String

pub record Tables : Type 0 where
  pub assignments : List WorkerAssignment
  pub requests : List OperationsLifecycleRequest

pub data Refusal : Type 0 where
  supervisor_disabled not_found not_scoped claimed_by_another : Refusal
  dispatcher_raised : (error : String) → Refusal

abbrev pub Reply : Type 0
Reply = Refusal ⊎ OperationsLifecycleRequest

abbrev pub is_requested : OperationsLifecycleStatus → Bool
is_requested requested = true
is_requested acknowledged = false
is_requested completed = false
is_requested failed = false

abbrev pub requested_time : OperationsLifecycleRequest → ℕ
requested_time row = row.requested_at

abbrev pub request_matches_supervisor_scope : OperationsLifecycleRequest → Option ℕ → Bool
request_matches_supervisor_scope row edge_node_id = row.edge_node_id == edge_node_id

unfoldable pub desired_state_for_lifecycle_action :
    OperationsLifecycleAction → Option WorkerDesiredState
desired_state_for_lifecycle_action stop = some not_desired
desired_state_for_lifecycle_action drain = some not_desired
desired_state_for_lifecycle_action start = some supervised
desired_state_for_lifecycle_action restart = some supervised

abbrev pub is_assignment : Option ℕ → WorkerAssignment → Bool
is_assignment none row = true
is_assignment (some id) row = row.id == id

-- The assignment whose desired state a request changes.
unfoldable pub assignment_for :
    List WorkerAssignment → ℕ → OperationsLifecycleRequestCreate → Option WorkerAssignment
assignment_for table tenant_id payload = first_of (
    sorted (is_newer created) (
      keep
        (λ row.
          is_for tenant_id payload.camera_id row
          && row.active
          && is_assignment payload.assignment_id row)
        table))

unfoldable pub set_desired_state :
    ℕ → WorkerDesiredState → List WorkerAssignment → List WorkerAssignment
set_desired_state id state [] = []
set_desired_state id state (row ∷ rows) =
    (if row.id == id then record row { desired_state = state } else row)
    ∷ set_desired_state id state rows

unfoldable pub apply_lifecycle_desired_state :
    List WorkerAssignment → ℕ → OperationsLifecycleRequestCreate → List WorkerAssignment
unfolding desired_state_for_lifecycle_action assignment_for set_desired_state
apply_lifecycle_desired_state table tenant_id payload =
    elim (desired_state_for_lifecycle_action payload.action) [
      | none ↦ table
      | some state ↦ elim (assignment_for table tenant_id payload) [
        | none ↦ table
        | some row ↦ set_desired_state row.id state table
      ]
    ]

-- The row with the id, after a transaction has changed it.
unfoldable pub update_request :
    ℕ
    → (OperationsLifecycleRequest → OperationsLifecycleRequest)
    → List OperationsLifecycleRequest
    → List OperationsLifecycleRequest
update_request id change [] = []
update_request id change (row ∷ rows) =
    (if row.id == id then change row else row) ∷ update_request id change rows

unfoldable pub load_lifecycle_request :
    List OperationsLifecycleRequest → ℕ → ℕ → Option OperationsLifecycleRequest
load_lifecycle_request [] tenant_id id = none
load_lifecycle_request (row ∷ rows) tenant_id id =
    if row.tenant_id == tenant_id && row.id == id
    then some row
    else load_lifecycle_request rows tenant_id id

abbrev pub is_pending_for : Option ℕ → OperationsLifecycleRequest → Bool
is_pending_for edge_node_id row =
    is_requested row.status && request_matches_supervisor_scope row edge_node_id

unfoldable pub pending_requests :
    List OperationsLifecycleRequest → ℕ → Option ℕ → List OperationsLifecycleRequest
pending_requests table tenant_id edge_node_id =
    keep (is_pending_for edge_node_id)
      (sorted (is_older requested_time) (keep (λ row. row.tenant_id == tenant_id) table))

unfoldable pub poll_lifecycle_requests : Tables → ℕ → Option ℕ → ℕ → List OperationsLifecycleRequest
unfolding pending_requests
poll_lifecycle_requests db tenant_id edge_node_id limit =
    take limit (pending_requests db.requests tenant_id edge_node_id)

abbrev pub claimed : String → ℕ → OperationsLifecycleRequest → OperationsLifecycleRequest
claimed supervisor_id now row = record row {
  status = acknowledged;
  claimed_by_supervisor = some supervisor_id;
  claimed_at = some now;
  acknowledged_at = some now;
}

-- A request that is not waiting is given back as it is.
unfoldable pub claim_lifecycle_request : Tables → ℕ → ℕ → String → Option ℕ → ℕ → Reply × Tables
unfolding load_lifecycle_request update_request
claim_lifecycle_request db tenant_id request_id supervisor_id edge_node_id now =
    elim (load_lifecycle_request db.requests tenant_id request_id) [
      | none ↦ (inl not_found, db)
      | some row ↦
          if not (is_requested row.status)
          then (inr row, db)
          else if not (request_matches_supervisor_scope row edge_node_id)
          then (inl not_scoped, db)
          else (
            inr (claimed supervisor_id now row),
            record db { requests = update_request row.id (claimed supervisor_id now) db.requests },
          )
    ]

abbrev pub is_free_for : String → Option String → Bool
is_free_for supervisor_id none = true
is_free_for supervisor_id (some holder) = holder == supervisor_id

abbrev pub concluded :
    OperationsLifecycleStatus
    → Option ℕ
    → Option String
    → ℕ
    → OperationsLifecycleRequest
    → OperationsLifecycleRequest
concluded status admission_report_id err now row = record row {
  status = status;
  completed_at = some now;
  error = err;
  admission_report_id = admission_report_id;
}

unfoldable pub complete_lifecycle_request :
    Tables
    → ℕ
    → ℕ
    → String
    → OperationsLifecycleStatus
    → Option ℕ
    → Option String
    → ℕ
    → Reply × Tables
unfolding load_lifecycle_request update_request
complete_lifecycle_request db tenant_id request_id supervisor_id status report err now =
    elim (load_lifecycle_request db.requests tenant_id request_id) [
      | none ↦ (inl not_found, db)
      | some row ↦
          if is_free_for supervisor_id row.claimed_by_supervisor
          then (
            inr (concluded status report err now row),
            record db {
              requests = update_request row.id (concluded status report err now) db.requests;
            },
          )
          else (inl claimed_by_another, db)
    ]

unfoldable pub latest_lifecycle_requests_by_camera :
    Tables → ℕ → List ℕ → Dict ℕ OperationsLifecycleRequest
unfolding keep_first
latest_lifecycle_requests_by_camera db tenant_id camera_ids =
    keep_first (λ row. row.camera_id) camera_ids []
      (sorted (is_newer requested_time) (keep (λ row. row.tenant_id == tenant_id) db.requests))
