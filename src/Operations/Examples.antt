-- ===== src/Operations/Examples.antt =====
-- The theorems of the control plane at concrete inputs.
use vision.Common.{
  ℕ, ◌≤◌, ◌≡◌, ◌≢◌, ◌⊎◌, inl, inr, refl, true, false, not, is_some, Option, none, some, List, [],
  ◌∷◌, lookup, keep, All, length, contains, ◌==◌, compare_nat, arith,
}
use vision.Operations.Assignments.{
  WorkerAssignment, WorkerAssignmentCreate, supervised, create_assignment,
  latest_assignments_by_camera,
}
use vision.Operations.Assignments.Active.{active_for, create_assignment-latest}
use vision.Operations.Requests.{
  OperationsLifecycleRequest, OperationsLifecycleRequestCreate, start, completed, polling,
  supervisor_disabled, Tables, claimed, pending_requests, poll_lifecycle_requests,
  claim_lifecycle_request, complete_lifecycle_request, load_lifecycle_request, update_request,
}
use vision.Operations.Requests.Dispatch.{
  create_lifecycle_request, new_request, nats_dispatch, timed_out,
}
use vision.Operations.Requests.Held.{holder}
use vision.Operations.Requests.Claims.{creates, claims, completes, done, then_step, Steps-holder}
use vision.Operations.Requests.Poll.{claim-pending_requests, poll-claim}
use vision.Operations.Reports.{
  WorkerRuntimeReport, running, error, runtime_status_for_report, latest_runtime_reports_by_camera,
}
use vision.Operations.Reports.Current.{IsShown, runtime_status-IsShown}
use vision.Operations.Controls.{
  OperationsModeProfileConfig, central_supervisor, edge_supervisor, on_failure,
  resolve_worker_operations_controls, offered-served, owner_of,
}

-- A camera's active assignment, and one that it superseded.
abbrev assigned : List WorkerAssignment
assigned =
    record {
      id = 31;
      tenant_id = 1;
      camera_id = 5;
      edge_node_id = some 9;
      desired_state = supervised;
      active = true;
      supersedes_assignment_id = some 30;
      assigned_by_subject = none;
      created_at = 200;
    }
    ∷ record {
      id = 30;
      tenant_id = 1;
      camera_id = 5;
      edge_node_id = none;
      desired_state = supervised;
      active = false;
      supersedes_assignment_id = none;
      assigned_by_subject = none;
      created_at = 100;
    }
    ∷ []

abbrev wanted : WorkerAssignmentCreate
wanted = record { camera_id = 5; edge_node_id = none; desired_state = supervised }

assigned-single : (t c : ℕ) → length (active_for t c assigned) ≤ 1
unfolding keep
assigned-single t c = ground arith

create_assignment-latest_example :
    let (row, table') = create_assignment assigned 1 wanted none 32 50 in
    lookup 5 (latest_assignments_by_camera table' 1 (5 ∷ [])) ≡ some row
unfolding contains
create_assignment-latest_example =
    create_assignment-latest assigned 1 wanted none 32 50 (5 ∷ []) assigned-single refl

abbrev starting_five : OperationsLifecycleRequestCreate
starting_five = record {
  camera_id = 5;
  edge_node_id = some 9;
  assignment_id = none;
  action = start;
  request_payload = [];
}

abbrev waiting : ℕ → OperationsLifecycleRequest
waiting id = new_request 1 starting_five none id 1000

-- Two requests wait.
abbrev tables : Tables
tables = record { assignments = assigned; requests = waiting 41 ∷ waiting 40 ∷ [] }

-- The first is claimed.
abbrev after_claim : Tables
after_claim = (claim_lifecycle_request tables 1 41 "one" (some 9) 1001).1

-- Then a request is created whose push times out, another supervisor tries to claim the first, and its
-- holder completes it.
abbrev after_creation : Tables
after_creation =
    (create_lifecycle_request (some (nats_dispatch (λ id. "9") (λ subject row. timed_out)))
      after_claim 1 starting_five none (some polling) 42 1002).1

abbrev after_second : Tables
after_second = (claim_lifecycle_request after_creation 1 41 "two" (some 9) 1003).1

abbrev after_completion : Tables
after_completion = (complete_lifecycle_request after_second 1 41 "one" completed none none 1004).1

Steps-holder_example : holder after_completion 1 41 ≡ some "one"
unfolding contains claim_lifecycle_request load_lifecycle_request update_request
Steps-holder_example =
    Steps-holder 1 41 "one"
      (then_step
        (creates {db = after_claim} (some (nats_dispatch (λ id. "9") (λ subject row. timed_out))) 1
          starting_five none (some polling) 42 1002 refl)
        (then_step (claims {db = after_creation} 1 41 "two" (some 9) 1003) (
          then_step (completes {db = after_second} 1 41 "one" completed none none 1004 refl) done)))
      (record { unique = (refl, (refl, tt)); free = (inl refl, (inr refl, tt)) }) refl

claim-pending_requests_example :
    let (reply, db') = claim_lifecycle_request tables 1 41 "one" (some 9) 1001 in
    (reply ≡ inr (claimed "one" 1001 (waiting 41)))
    × (pending_requests db'.requests 1 (some 9)
        ≡ keep (λ r. not (r.id == 41)) (pending_requests tables.requests 1 (some 9)))
unfolding load_lifecycle_request
claim-pending_requests_example =
    claim-pending_requests tables 1 41 "one" (some 9) 1001 (waiting 41) (some 9) refl refl refl

poll-claim_example :
    All
      (λ row.
        (row.tenant_id ≡ 1)
        × ((claim_lifecycle_request tables 1 row.id "two" (some 9) 1005).0
            ≡ inr (claimed "two" 1005 row)))
      (poll_lifecycle_requests tables 1 (some 9) 10)
unfolding contains
poll-claim_example = poll-claim tables 1 "two" (some 9) 10 1005 (refl, (refl, tt))

abbrev report_at : ℕ → WorkerRuntimeReport
report_at time = record {
  tenant_id = 1;
  camera_id = 5;
  edge_node_id = some 9;
  assignment_id = some 31;
  heartbeat_at = time;
  runtime_state = running;
  restart_count = 0;
  last_error = none;
  runtime_artifact_id = none;
  scene_contract_hash = none;
}

abbrev reports : List WorkerRuntimeReport
reports = report_at 700 ∷ record (report_at 900) { runtime_state = error } ∷ report_at 800 ∷ []

runtime_status-IsShown_example : IsShown reports 1 5 1000 (
    runtime_status_for_report (lookup 5 (latest_runtime_reports_by_camera reports 1 (5 ∷ []))) 1000)
unfolding contains
runtime_status-IsShown_example = runtime_status-IsShown reports 1 (5 ∷ []) 5 1000 refl

abbrev profile : OperationsModeProfileConfig
profile = record {
  lifecycle_owner = central_supervisor;
  supervisor_mode = polling;
  restart_policy = on_failure;
}

offered-served_example :
    let node : Option ℕ = some 9 in
    let owner = (resolve_worker_operations_controls profile node true).lifecycle_owner in
    (true ≡ true)
    × (((owner ≡ edge_supervisor) × (is_some node ≡ true))
        ⊎ ((owner ≡ central_supervisor) × (node ≡ none)))
    × ((create_lifecycle_request none tables 1 starting_five none (some polling) 43 1006).0
        ≢ inl supervisor_disabled)
unfolding resolve_worker_operations_controls owner_of
offered-served_example =
    offered-served profile (some 9) true none tables 1 starting_five none 43 1006 refl
