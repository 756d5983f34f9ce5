-- ===== src/Supervisor/Adapter/Processes.antt =====
-- Which processes the adapter knows after its calls.
use vision.Common.{
  ℕ, ◌==◌, str_eq, ◌≡◌, refl, String, true, false, Option, none, some, [], ◌∷◌, Dict, lookup,
  insert, lookup-insert, lookup-remove, IsDistinct, insert-IsDistinct, remove-IsDistinct,
  if◌then◌else◌, arith, Bool-cases, inl, inr, compare_nat, compare_string, nat_beq_iff, eq_iff,
}
use vision.Supervisor.Adapter.{
  running, is_truthy, Launch, launched, refused, System, Adapter, LaunchConfig, bearer_token,
  set_if_truthy, set_if_some, or_empty, or_os, result, is_running, start_process, start, stop,
  restart, environment, update_env,
}

pub start-IsDistinct :
    (a : Adapter) (sys : System) (camera_id : ℕ)
    → IsDistinct a.processes
    → IsDistinct (start a sys camera_id).1.processes
unfolding start
start-IsDistinct a sys c d = elim (Bool-cases (is_running a sys c)) [
  | inl e ↦ rw (e, start) d
  | inr e ↦ rw (e, start) (byLaunch (sys.launch c))
]
  where
    byLaunch :
        (l : Launch)
        → IsDistinct (start_process (record a { accepting_new_work = true }) l c).1.processes
    byLaunch (refused message) = d
    byLaunch (launched handle) = insert-IsDistinct c handle a.processes d

-- A stop takes the camera's process off the books and touches no other camera's, however the
-- termination ends.
pub stop_lem :
    (a : Adapter) (sys : System) (camera_id other : ℕ)
    → lookup other (stop a sys camera_id).1.processes
      ≡ (if camera_id == other then none else lookup other a.processes)
unfolding stop
stop_lem a sys c j = ground (arith, lookup-remove c j a.processes, nat_beq_iff c j)

pub stop-IsDistinct :
    (a : Adapter) (sys : System) (camera_id : ℕ)
    → IsDistinct a.processes
    → IsDistinct (stop a sys camera_id).1.processes
unfolding stop
stop-IsDistinct a sys c d = ground (arith, remove-IsDistinct c a.processes d)

pub restart-IsDistinct :
    (a : Adapter) (sys : System) (camera_id : ℕ)
    → IsDistinct a.processes
    → IsDistinct (restart a sys camera_id).1.processes
unfolding restart
restart-IsDistinct a sys c d =
    let halted = stop a sys c in
    elim (Bool-cases (is_truthy halted.0.last_error)) [
      | inl e ↦ rw (e, restart) (stop-IsDistinct a sys c d)
      | inr e ↦ rw (e, restart) (start-IsDistinct halted.1 sys c (stop-IsDistinct a sys c d))
    ]

-- A failed termination is forgotten like a clean one: the adapter no longer takes the camera for
-- running, although its process lives.
pub stop-is_running :
    (a : Adapter) (sys later : System) (camera_id handle : ℕ)
    → lookup camera_id a.processes ≡ some handle
    → later.is_alive handle ≡ true
    → (is_running a later camera_id ≡ true)
      × (is_running (stop a sys camera_id).1 later camera_id ≡ false)
unfolding is_running
stop-is_running a sys later c h held alive =
    (ground arith, ground (arith, stop_lem a sys c c, nat_beq_iff c c))

-- Whatever the system, a stopped camera is not running.
stopped-is_running :
    (a : Adapter) (sys later : System) (camera_id : ℕ)
    → is_running (stop a sys camera_id).1 later camera_id ≡ false
unfolding is_running
stopped-is_running a sys later c = ground (arith, stop_lem a sys c c, nat_beq_iff c c)

pub start-launch :
    (a : Adapter) (sys : System) (camera_id : ℕ) (l : Launch)
    → is_running a sys camera_id ≡ false
    → sys.launch camera_id ≡ l
    → start a sys camera_id ≡ start_process (record a { accepting_new_work = true }) l camera_id
unfolding start
start-launch a sys c l idle e = rw (idle, e, start)

-- A restart whose stop does not fail with a message runs the process that the launch gives, and
-- the adapter accepts work.
pub restart_lem :
    (a : Adapter) (sys : System) (camera_id handle : ℕ)
    → sys.launch camera_id ≡ launched handle
    → is_truthy (stop a sys camera_id).0.last_error ≡ false
    → let (outcome, a') = restart a sys camera_id in
      (outcome ≡ result running none)
      × (lookup camera_id a'.processes ≡ some handle)
      × (a'.accepting_new_work ≡ true)
unfolding restart start_process
restart_lem a sys c h launches fine =
    let halted = stop a sys c in
    let started =
      start-launch halted.1 sys c (launched h) (stopped-is_running a sys sys c) launches in
    rw (fine, restart, started)
      (refl, ground (arith, lookup-insert c c h halted.1.processes, nat_beq_iff c c), refl)

-- A restart whose stop fails with a message launches nothing: the failure is its result, and the
-- adapter knows no process of the camera.
pub restart-failed :
    (a : Adapter) (sys : System) (camera_id : ℕ)
    → is_truthy (stop a sys camera_id).0.last_error ≡ true
    → let (outcome, a') = restart a sys camera_id in
      (outcome.last_error ≡ (stop a sys camera_id).0.last_error)
      × (lookup camera_id a'.processes ≡ none)
unfolding restart
restart-failed a sys c failed =
    rw (failed, restart) (refl, ground (arith, stop_lem a sys c c, nat_beq_iff c c))

abbrev pub or_else : Option String → Option String → Option String
or_else none b = b
or_else (some a) b = some a

abbrev pub if_truthy : Option String → Option String
if_truthy none = none
if_truthy (some value) = if is_truthy (some value) then some value else none

abbrev pub for_key : String → String → Option String → Option String
for_key key wanted value = if str_eq key wanted then value else none

update_env-lookup :
    (env other : Dict String String) (key : String)
    → IsDistinct other
    → lookup key (update_env env other) ≡ or_else (lookup key other) (lookup key env)
unfolding update_env lookup
update_env-lookup env [] key d = refl
update_env-lookup env ((k, value) ∷ rest) key d = ground (
  arith,
  update_env-lookup (insert k value env) rest key d.1,
  lookup-insert k key value env,
  eq_iff k key,
  d.0,
)

set_if_truthy-lookup :
    (name : String) (value : Option String) (env : Dict String String) (key : String)
    → lookup key (set_if_truthy name value env)
      ≡ or_else (for_key name key (if_truthy value)) (lookup key env)
unfolding set_if_truthy
set_if_truthy-lookup name none env key = ground arith
set_if_truthy-lookup name (some value) env key =
    ground (arith, lookup-insert name key value env, eq_iff name key)

set_if_some-lookup :
    (name : String) (value : Option String) (env : Dict String String) (key : String)
    → lookup key (set_if_some name value env) ≡ or_else (for_key name key value) (lookup key env)
set_if_some-lookup name none env key = ground arith
set_if_some-lookup name (some value) env key =
    ground (arith, lookup-insert name key value env, eq_iff name key)

-- A worker's environment variable has the value of the first of these that sets it: the extra
-- environment, the node's id, the token (the provider's if one is configured, and not the empty
-- text), the address (not the empty text), and the base environment. The extra environment is a
-- dictionary without double keys.
pub environment-lookup :
    (c : LaunchConfig) (os_env : Dict String String) (provided : Option (Option String))
    (key : String)
    → IsDistinct (or_empty c.extra_env)
    → lookup key (environment c os_env provided)
      ≡ or_else (lookup key (or_empty c.extra_env)) (
          or_else (for_key "ARGUS_EDGE_NODE_ID" key c.edge_node_id) (
            or_else (for_key "ARGUS_API_BEARER_TOKEN" key (if_truthy (bearer_token c provided))) (
              or_else
                (for_key "ARGUS_API_BASE_URL" key (if_truthy c.api_base_url))
                (lookup key (or_os c.base_env os_env)))))
unfolding environment
environment-lookup c os_env provided key d =
    let based = or_os c.base_env os_env in
    let addressed = set_if_truthy "ARGUS_API_BASE_URL" c.api_base_url based in
    let authorised = set_if_truthy "ARGUS_API_BEARER_TOKEN" (bearer_token c provided) addressed in
    rw
      (
        update_env-lookup (set_if_some "ARGUS_EDGE_NODE_ID" c.edge_node_id authorised)
            (or_empty c.extra_env) key d,
        set_if_some-lookup "ARGUS_EDGE_NODE_ID" c.edge_node_id authorised key,
        set_if_truthy-lookup "ARGUS_API_BEARER_TOKEN" (bearer_token c provided) addressed key,
        set_if_truthy-lookup "ARGUS_API_BASE_URL" c.api_base_url based key,
      )
      refl
