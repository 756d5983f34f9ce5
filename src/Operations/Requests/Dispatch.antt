-- ===== src/Operations/Requests/Dispatch.antt =====
-- The creation of a request and its dispatch. The push dispatcher is an argument: what it gives for a
-- request, which is a result, another object of which two attributes are read, or an exception's text.
use vision.Common.{
  ℕ, String, Bool, true, false, Option, none, some, ◌∷◌, insert, ◌⊎◌, inl, inr, ◌==◌, if◌then◌else◌,
  compare_string, compare_nat,
}
use vision.Operations.Requests.{
  OperationsLifecycleRequest, OperationsLifecycleRequestCreate, SupervisorMode, disabled, polling,
  push, requested, Tables, supervisor_disabled, dispatcher_raised, Reply,
  apply_lifecycle_desired_state, update_request,
}
use Prim.Native.String

pub data DispatchMode : Type 0 where
  polling_mode push_mode : DispatchMode

pub data DispatchStatus : Type 0 where
  queued_for_polling acknowledged ack_timeout failed : DispatchStatus

pub record LifecycleDispatchResult : Type 0 where
  pub dispatch_mode : DispatchMode
  pub dispatch_status : DispatchStatus
  pub error : Option String

pub data Dispatched : Type 0 where
  result : LifecycleDispatchResult → Dispatched
  other : (dispatch_status : Option String) (error : Option String) → Dispatched
  raised : (error : String) → Dispatched

abbrev pub Dispatcher : Type 0
Dispatcher = OperationsLifecycleRequest → Dispatched

abbrev pub mode_text : DispatchMode → String
mode_text polling_mode = "polling"
mode_text push_mode = "push"

abbrev pub status_text : DispatchStatus → String
status_text queued_for_polling = "queued_for_polling"
status_text acknowledged = "acknowledged"
status_text ack_timeout = "ack_timeout"
status_text failed = "failed"

abbrev default_status : DispatchMode → DispatchStatus
default_status polling_mode = queued_for_polling
default_status push_mode = failed

unfoldable pub status_or_default : Option String → DispatchMode → DispatchStatus
status_or_default none mode = default_status mode
status_or_default (some text) mode =
    if text == "queued_for_polling"
    then queued_for_polling
    else if text == "acknowledged"
    then acknowledged
    else if text == "ack_timeout"
    then ack_timeout
    else if text == "failed"
    then failed
    else default_status mode

-- A left value is the text of an exception.
unfoldable pub coerce_lifecycle_dispatch_result :
    Dispatched → DispatchMode → String ⊎ LifecycleDispatchResult
unfolding status_or_default
coerce_lifecycle_dispatch_result (result r) mode = inr r
coerce_lifecycle_dispatch_result (other raw_status err) mode = inr (record {
  dispatch_mode = mode;
  dispatch_status = status_or_default raw_status mode;
  error = err;
})
coerce_lifecycle_dispatch_result (raised err) mode = inl err

unfoldable pub polling_dispatch : Dispatcher
polling_dispatch row =
    result
      (record { dispatch_mode = polling_mode; dispatch_status = queued_for_polling; error = none })

-- What a publication to the message bus gives.
pub data Published : Type 0 where
  delivered timed_out : Published
  refused : (error : String) → Published

abbrev pub pushed : DispatchStatus → Option String → Dispatched
pushed status err =
    result (record { dispatch_mode = push_mode; dispatch_status = status; error = err })

abbrev pub subject_key : (ℕ → String) → Option ℕ → String
subject_key uuid_text none = "central"
subject_key uuid_text (some edge_node_id) = uuid_text edge_node_id

abbrev pub of_published : Published → Dispatched
of_published delivered = pushed acknowledged none
of_published timed_out =
    pushed ack_timeout (some "Timed out waiting for supervisor push acknowledgement.")
of_published (refused err) = pushed failed (some err)

unfoldable pub nats_dispatch :
    (ℕ → String) → (String → OperationsLifecycleRequest → Published) → Dispatcher
nats_dispatch uuid_text publish row = of_published (
    publish
      (String.◌++◌ "supervisor."
        (String.◌++◌ (subject_key uuid_text row.edge_node_id) ".lifecycle"))
      row)

abbrev is_push : SupervisorMode → Bool
is_push push = true
is_push polling = false
is_push disabled = false

abbrev pub is_disabled : SupervisorMode → Bool
is_disabled disabled = true
is_disabled polling = false
is_disabled push = false

unfoldable pub dispatch_lifecycle_request :
    Option Dispatcher
    → OperationsLifecycleRequest
    → SupervisorMode
    → String ⊎ LifecycleDispatchResult
unfolding coerce_lifecycle_dispatch_result polling_dispatch
dispatch_lifecycle_request push_dispatcher row mode =
    if is_push mode
    then elim push_dispatcher [
      | none ↦ inr (record {
        dispatch_mode = push_mode;
        dispatch_status = failed;
        error = some "Supervisor push dispatcher is not configured.";
      })
      | some dispatch ↦ coerce_lifecycle_dispatch_result (dispatch row) push_mode
    ]
    else coerce_lifecycle_dispatch_result (polling_dispatch row) polling_mode

-- The supervisor mode of the profile, which is validated already.
abbrev pub mode_or_polling : Option SupervisorMode → SupervisorMode
mode_or_polling none = polling
mode_or_polling (some mode) = mode

abbrev pub new_request :
    ℕ → OperationsLifecycleRequestCreate → Option String → ℕ → ℕ → OperationsLifecycleRequest
new_request tenant_id payload actor_subject id now = record {
  id = id;
  tenant_id = tenant_id;
  camera_id = payload.camera_id;
  edge_node_id = payload.edge_node_id;
  assignment_id = payload.assignment_id;
  action = payload.action;
  status = requested;
  requested_by_subject = actor_subject;
  requested_at = now;
  acknowledged_at = none;
  claimed_by_supervisor = none;
  claimed_at = none;
  completed_at = none;
  admission_report_id = none;
  error = none;
  request_payload = payload.request_payload;
}

abbrev pub dispatched :
    LifecycleDispatchResult → OperationsLifecycleRequest → OperationsLifecycleRequest
dispatched r row = record row {
  request_payload =
      insert "dispatch_status" (status_text r.dispatch_status)
        (insert "dispatch_mode" (mode_text r.dispatch_mode) row.request_payload);
  error = r.error;
}

-- The row is committed before it is dispatched, so an exception of the dispatcher leaves it there.
abbrev pub after_dispatch :
    Tables → OperationsLifecycleRequest → String ⊎ LifecycleDispatchResult → Reply × Tables
after_dispatch db row (inl err) = (inl (dispatcher_raised err), db)
after_dispatch db row (inr r) = (
  inr (dispatched r row),
  record db { requests = update_request row.id (dispatched r) db.requests },
)

unfoldable pub create_lifecycle_request :
    Option Dispatcher
    → Tables
    → ℕ
    → OperationsLifecycleRequestCreate
    → Option String
    → Option SupervisorMode
    → ℕ
    → ℕ
    → Reply × Tables
unfolding dispatch_lifecycle_request update_request apply_lifecycle_desired_state
create_lifecycle_request push_dispatcher db tenant_id payload actor_subject profile id now =
    let mode = mode_or_polling profile in
    let row = new_request tenant_id payload actor_subject id now in
    if is_disabled mode
    then (inl supervisor_disabled, db)
    else after_dispatch
        (record {
          assignments = apply_lifecycle_desired_state db.assignments tenant_id payload;
          requests = row ∷ db.requests;
        })
        row (dispatch_lifecycle_request push_dispatcher row mode)
