-- ===== src/Supervisor/Adapter.antt =====
-- backend/src/argus/supervisor/process_adapter.py: the worker processes of one node. The operating
-- system is what the calls of a request find: which processes live, and how a launch and a
-- termination end. A process is its handle; an exception is its text, `str(exc)`.
pub mod Processes
use vision.Common.{
  ℕ, ◌≡◌, String, Bool, true, false, not, ◌&&◌, Option, none, some, List, [], ◌∷◌, ◌++◌, Dict,
  lookup, insert, remove, if◌then◌else◌, str_eq, compare_nat, compare_string,
}

pub data RuntimeState : Type 0 where
  running stopped error : RuntimeState

pub record WorkerProcessResult : Type 0 where
  pub runtime_state : RuntimeState
  pub last_error : Option String

-- Python's truth of `error`: neither `None` nor the empty text.
abbrev pub is_truthy : Option String → Bool
is_truthy none = false
is_truthy (some s) = not (str_eq s "")

pub data Launch : Type 0 where
  launched : (handle : ℕ) → Launch
  refused : (message : String) → Launch

-- How `kill` and the `wait` after it end.
pub data Kill : Type 0 where
  killed : Kill
  kill_raised : (message : String) → Kill

-- How `terminate` and the bounded `wait` end.
pub data Termination : Type 0 where
  exited : Termination
  timed_out : Kill → Termination
  raised : (message : String) → Termination

pub record System : Type 0 where
  pub is_alive : ℕ → Bool
  pub launch : (camera_id : ℕ) → Launch
  pub terminate : (handle : ℕ) → Termination

pub record Adapter : Type 0 where
  pub processes : Dict ℕ ℕ
  pub accepting_new_work : Bool

abbrev pub result : RuntimeState → Option String → WorkerProcessResult
result state last_error = record { runtime_state = state; last_error = last_error }

unfoldable pub init : Adapter
init = record { processes = []; accepting_new_work = true }

unfoldable pub is_running : Adapter → System → ℕ → Bool
is_running a sys camera_id = elim (lookup camera_id a.processes) [
  | none ↦ false
  | some handle ↦ sys.is_alive handle
]

unfoldable pub start_process : Adapter → Launch → ℕ → WorkerProcessResult × Adapter
start_process a (refused message) camera_id = (result error (some message), a)
start_process a (launched handle) camera_id =
    (result running none, record a { processes = insert camera_id handle a.processes })

unfoldable pub start : Adapter → System → ℕ → WorkerProcessResult × Adapter
unfolding start_process is_running
start a sys camera_id =
    let open_again = record a { accepting_new_work = true } in
    if is_running a sys camera_id
    then (result running none, open_again)
    else start_process open_again (sys.launch camera_id) camera_id

-- `_terminate`, for a process that had not ended.
unfoldable pub end_process : Termination → Option String
end_process exited = none
end_process (timed_out killed) = none
end_process (timed_out (kill_raised message)) = some message
end_process (raised message) = some message

unfoldable pub terminate : System → ℕ → Option String
unfolding end_process
terminate sys handle = if sys.is_alive handle then end_process (sys.terminate handle) else none

unfoldable pub stop : Adapter → System → ℕ → WorkerProcessResult × Adapter
unfolding terminate
stop a sys camera_id = elim (lookup camera_id a.processes) [
  | none ↦ (result stopped none, a)
  | some handle ↦
      let failure = terminate sys handle in
      (
        result (if is_truthy failure then error else stopped) failure,
        record a { processes = remove camera_id a.processes },
      )
]

unfoldable pub restart : Adapter → System → ℕ → WorkerProcessResult × Adapter
restart a sys camera_id =
    let (outcome, a') = stop a sys camera_id in
    if is_truthy outcome.last_error then (outcome, a') else start a' sys camera_id

unfoldable pub drain : Adapter → System → ℕ → WorkerProcessResult × Adapter
drain a sys camera_id = stop (record a { accepting_new_work = false }) sys camera_id

-- `_argv`
pub record LaunchConfig : Type 0 where
  pub python_executable : String
  pub module_name : String
  pub api_base_url : Option String
  pub bearer_token : Option String
  pub edge_node_id : Option String
  pub extra_env : Option (Dict String String)
  pub base_env : Option (Dict String String)

unfoldable pub argv : LaunchConfig → String → List String
argv c camera_id = c.python_executable ∷ "-m" ∷ c.module_name ∷ "--camera-id" ∷ camera_id ∷ []

-- `env[key] = value` if the value is truthy.
unfoldable pub set_if_truthy : String → Option String → Dict String String → Dict String String
set_if_truthy key none env = env
set_if_truthy key (some value) env = if is_truthy (some value) then insert key value env else env

-- `env.update(other)`
unfoldable pub update_env : Dict String String → Dict String String → Dict String String
update_env env [] = env
update_env env ((key, value) ∷ rest) = update_env (insert key value env) rest

-- What the token provider returns, if one is configured, stands in place of the configured token.
unfoldable pub bearer_token : LaunchConfig → Option (Option String) → Option String
bearer_token c none = c.bearer_token
bearer_token c (some token) = if is_truthy token then token else none

abbrev pub or_empty : Option (Dict String String) → Dict String String
or_empty none = []
or_empty (some d) = d

abbrev pub or_os : Option (Dict String String) → Dict String String → Dict String String
or_os none os_env = os_env
or_os (some d) os_env = d

abbrev pub set_if_some : String → Option String → Dict String String → Dict String String
set_if_some key none env = env
set_if_some key (some value) env = insert key value env

-- `_env`, over the process's own environment and the provider's answer.
unfoldable pub environment :
    LaunchConfig → Dict String String → Option (Option String) → Dict String String
unfolding set_if_truthy update_env bearer_token
environment c os_env provided =
    let based = or_os c.base_env os_env in
    let addressed = set_if_truthy "ARGUS_API_BASE_URL" c.api_base_url based in
    let authorised = set_if_truthy "ARGUS_API_BEARER_TOKEN" (bearer_token c provided) addressed in
    update_env (set_if_some "ARGUS_EDGE_NODE_ID" c.edge_node_id authorised) (or_empty c.extra_env)
