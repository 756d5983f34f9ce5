-- ===== src/Supervisor/Reconciler.antt =====
-- backend/src/argus/supervisor/reconciler.py: one pass over the claimed lifecycle requests and the
-- workers that the fleet wants. The control plane is what its calls answer, and the calls that
-- change it are the events of the pass, the latest last. A payload is its canonical JSON text,
-- which `_start_key` compares. An exception out of a call of the control plane is outside the model.
pub mod Requests
pub mod Recovery
use vision.Common.{
  ℕ, ◌+◌, ◌<◌, ◌≡◌, String, Bool, true, false, not, ◌&&◌, ◌||◌, Option, none, some, List, [], ◌∷◌,
  ◌++◌, Dict, lookup, length, insert, if◌then◌else◌, str_eq, ltb, ◌==◌, compare_nat, compare_string,
  compare_option, compare_pair, is_some,
}
use Prim.Native.String
use vision.Supervisor.Adapter.{
  RuntimeState, running, stopped, error, WorkerProcessResult, is_truthy, System, Adapter,
  is_running, start, stop, restart, drain,
}

pub data Action : Type 0 where
  start_action stop_action restart_action drain_action : Action

abbrev pub is_start : Action → Bool
is_start start_action = true
is_start stop_action = false
is_start restart_action = false
is_start drain_action = false

-- `action in _START_ACTIONS`
abbrev pub is_starting : Action → Bool
is_starting start_action = true
is_starting restart_action = true
is_starting stop_action = false
is_starting drain_action = false

pub data AdmissionStatus : Type 0 where
  recommended supported degraded unsupported unknown : AdmissionStatus

-- `status in _ADMITTED_STATUSES`
abbrev pub is_admitted : AdmissionStatus → Bool
is_admitted recommended = true
is_admitted supported = true
is_admitted degraded = true
is_admitted unsupported = false
is_admitted unknown = false

abbrev pub status_text : AdmissionStatus → String
status_text recommended = "recommended"
status_text supported = "supported"
status_text degraded = "degraded"
status_text unsupported = "unsupported"
status_text unknown = "unknown"

pub record Admission : Type 0 where
  pub id : ℕ
  pub status : AdmissionStatus
  pub rationale : String

pub record Request : Type 0 where
  pub id : ℕ
  pub camera_id : ℕ
  pub edge_node_id : Option ℕ
  pub assignment_id : Option ℕ
  pub action : Action
  pub admission_report_id : Option ℕ
  pub payload : String

pub data Status : Type 0 where
  completed failed : Status

pub data Event : Type 0 where
  reported : (request_id : ℕ) (state : RuntimeState) (last_error : Option String) → Event
  concluded :
      (request_id : ℕ) (status : Status) (admission_id : Option ℕ) (message : Option String) → Event

abbrev pub StartKey : Type 0
StartKey = ℕ × Option ℕ × String

pub record Pass : Type 0 where
  pub adapter : Adapter
  pub events : List Event
  pub started : List StartKey

-- What the world answers while one request is handled.
pub record Answers : Type 0 where
  pub system : System
  pub admission : Admission

unfoldable pub start_key : Request → StartKey
start_key q = (q.camera_id, q.assignment_id, q.payload)

abbrev pub same_key : StartKey → StartKey → Bool
same_key a b = (a.0 == b.0) && (a.1 == b.1) && str_eq a.2 b.2

-- `start_key in started_requests`
unfoldable pub has_started : List StartKey → StartKey → Bool
has_started [] k = false
has_started (j ∷ js) k = same_key j k || has_started js k

abbrev pub emit : Pass → Event → Pass
emit p e = record p { events = p.events ++ e ∷ [] }

unfoldable pub record_duplicate_start : Pass → Request → Pass
record_duplicate_start p q =
    emit (emit p (reported q.id running none)) (concluded q.id completed none none)

unfoldable pub perform : Adapter → System → Action → ℕ → WorkerProcessResult × Adapter
perform a sys start_action camera_id = start a sys camera_id
perform a sys stop_action camera_id = stop a sys camera_id
perform a sys restart_action camera_id = restart a sys camera_id
perform a sys drain_action camera_id = drain a sys camera_id

unfoldable pub execute : Adapter → System → Request → WorkerProcessResult × Adapter
unfolding perform
execute a sys q = perform a sys q.action q.camera_id

unfoldable pub denial : Admission → String
denial m =
    String.◌++◌ "model admission "
      (String.◌++◌ (status_text m.status) (String.◌++◌ ": " m.rationale))

unfoldable pub deny : Pass → Request → Admission → Pass
unfolding denial
deny p q m = emit p (concluded q.id failed (some m.id) (some (denial m)))

unfoldable pub remember_start : Pass → Request → WorkerProcessResult → Pass
remember_start p q outcome =
    if is_start q.action && not (is_some outcome.last_error)
    then record p { started = start_key q ∷ p.started }
    else p

unfoldable pub conclude : Pass → Request → WorkerProcessResult → Option ℕ → Pass
conclude p q outcome admission_id =
    emit (emit p (reported q.id outcome.runtime_state outcome.last_error)) (
      concluded q.id (if is_truthy outcome.last_error then failed else completed) admission_id
        outcome.last_error)

-- What follows an admission, or an action that needs none.
unfoldable pub carry_out : Pass → Request → System → Option ℕ → Pass
carry_out p q sys admission_id =
    let (outcome, a) = execute p.adapter sys q in
    remember_start (conclude (record p { adapter = a }) q outcome admission_id) q outcome

unfoldable pub process_claimed_request : Pass → Request → Answers → Pass
process_claimed_request p q w =
    if is_start q.action && has_started p.started (start_key q)
    then record_duplicate_start p q
    else (if is_starting q.action
        then (if is_admitted w.admission.status
            then carry_out p q w.system (some w.admission.id)
            else deny p q w.admission)
        else carry_out p q w.system none)

unfoldable pub process_all : Pass → List (Request × Answers) → Pass
process_all p [] = p
process_all p ((q, w) ∷ rest) = process_all (process_claimed_request p q w) rest

pub data DesiredState : Type 0 where
  desired not_desired manual supervised : DesiredState

abbrev pub wants_running : DesiredState → Bool
wants_running desired = true
wants_running supervised = true
wants_running not_desired = false
wants_running manual = false

pub data Owner : Type 0 where
  manual_dev central_supervisor edge_supervisor nobody : Owner

pub data RestartPolicy : Type 0 where
  never on_failure always : RestartPolicy

-- The latest report of a worker: whether its state is `error`, and how often it was restarted.
pub record RuntimeReport : Type 0 where
  pub in_error : Bool
  pub restart_count : ℕ

pub record Worker : Type 0 where
  pub camera_id : ℕ
  pub node_id : Option ℕ
  pub assignment_id : Option ℕ
  pub desired_state : DesiredState
  pub lifecycle_owner : Owner
  pub restart_policy : RestartPolicy
  pub runtime_report : Option RuntimeReport
  pub latest_admission_id : Option ℕ

abbrev pub max_on_failure_restarts : ℕ
max_on_failure_restarts = 3

abbrev pub is_central : Owner → Bool
is_central central_supervisor = true
is_central manual_dev = false
is_central edge_supervisor = false
is_central nobody = false

abbrev pub is_edge : Owner → Bool
is_edge edge_supervisor = true
is_edge manual_dev = false
is_edge central_supervisor = false
is_edge nobody = false

unfoldable pub owner_matches : Worker → Option ℕ → Bool
owner_matches w none = is_central w.lifecycle_owner && not (is_some w.node_id)
owner_matches w (some node) = is_edge w.lifecycle_owner && (w.node_id == some node)

unfoldable pub allows_restart : RestartPolicy → RuntimeReport → Bool
allows_restart always report = true
allows_restart never report = false
allows_restart on_failure report =
    report.in_error && ltb report.restart_count max_on_failure_restarts

unfoldable pub allows_recovery : Worker → Bool
unfolding allows_restart
allows_recovery w = elim w.runtime_report [
  | none ↦ true
  | some report ↦ allows_restart w.restart_policy report
]

unfoldable pub should_start : Adapter → System → Option ℕ → Worker → Bool
unfolding owner_matches allows_recovery
should_start a sys edge_node_id w =
    a.accepting_new_work
    && wants_running w.desired_state
    && owner_matches w edge_node_id
    && not (is_running a sys w.camera_id)
    && allows_recovery w

-- `_request_from_desired_worker`, under a fresh id; the admission's id is filled in afterwards.
unfoldable pub request_for : Worker → ℕ → Request
request_for w request_id = record {
  id = request_id;
  camera_id = w.camera_id;
  edge_node_id = w.node_id;
  assignment_id = w.assignment_id;
  action = start_action;
  admission_report_id = w.latest_admission_id;
  payload = "{\"source\":\"desired_state_recovery\"}";
}

-- One worker of the fleet: the pass after it, and whether it counts as processed.
unfoldable pub recover : Pass → Option ℕ → Worker → ℕ → Answers → Pass × Bool
recover p edge_node_id w request_id answers =
    if should_start p.adapter answers.system edge_node_id w && is_admitted answers.admission.status
    then (let (outcome, a) = start p.adapter answers.system w.camera_id in
        (
          emit (record p { adapter = a })
              (reported (request_for w request_id).id outcome.runtime_state outcome.last_error),
          true,
        ))
    else (p, false)

unfoldable pub recover_all : Pass → Option ℕ → List (Worker × ℕ × Answers) → Pass × ℕ
recover_all p edge_node_id [] = (p, 0)
recover_all p edge_node_id ((w, request_id, answers) ∷ rest) =
    let (p', counted) = recover p edge_node_id w request_id answers in
    let (p'', processed) = recover_all p' edge_node_id rest in
    (p'', (if counted then 1 else 0) + processed)

abbrev fleet_of : Option (List (Worker × ℕ × Answers)) → List (Worker × ℕ × Answers)
fleet_of none = []
fleet_of (some fleet) = fleet

-- A pass: the adapter and the events after it, and the number of requests and workers processed.
unfoldable pub reconcile_once :
    Adapter → Option ℕ → List (Request × Answers) → Option (List (Worker × ℕ × Answers)) → Pass × ℕ
reconcile_once a edge_node_id requests fleet =
    let begun : Pass = record { adapter = a; events = []; started = [] } in
    let handled = process_all begun requests in
    let (p, recovered) = recover_all handled edge_node_id (fleet_of fleet) in
    (p, length requests + recovered)
