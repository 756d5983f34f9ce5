-- ===== src/Supervisor/Examples.antt =====
-- The supervisor's theorems at concrete inputs: camera 7, whose process is the one of handle 40.
use vision.Common.{
  ℕ, ◌+◌, ◌≡◌, refl, true, false, none, some, [], ◌∷◌, ◌++◌, lookup, compare_nat, compare_string,
}
use vision.Supervisor.Adapter.{
  error, running, launched, refused, exited, raised, System, Adapter, is_running, start, stop,
  LaunchConfig, environment, bearer_token, or_empty, or_os,
}
use vision.Supervisor.Adapter.Processes.{
  stop-is_running, environment-lookup, or_else, for_key, if_truthy,
}
use vision.Supervisor.Reconciler.{
  has_started, Pass, Answers, Request, Worker, reported, concluded, completed, start_action,
  stop_action, recommended, unsupported, supervised, edge_supervisor, on_failure, start_key,
  process_claimed_request, process_all, recover,
}
use vision.Supervisor.Reconciler.Requests.{
  process_all-duplicate_start, process_claimed_request-empty_error,
}
use vision.Supervisor.Reconciler.Recovery.{Recovered, recover-IsOwed}

-- Every process lives, each launch gives a process, and each termination ends as asked.
abbrev healthy : System
healthy = record {
  is_alive = λ handle. true;
  launch = λ camera_id. launched (camera_id + 33);
  terminate = λ handle. exited;
}

-- As before, but no process can be ended, and a launch fails without a text.
abbrev broken : System
broken = record {
  is_alive = λ handle. true;
  launch = λ camera_id. refused "";
  terminate = λ handle. raised "no such process";
}

abbrev one_process : Adapter
one_process = record { processes = (7, 40) ∷ []; accepting_new_work = true }

abbrev empty_pass : Pass
empty_pass = record {
  adapter = record { processes = []; accepting_new_work = true };
  events = [];
  started = [];
}

abbrev answers_of : System → Answers
answers_of sys = record {
  system = sys;
  admission = record { id = 90; status = recommended; rationale = "fits" };
}

abbrev refusal_of : System → Answers
refusal_of sys = record {
  system = sys;
  admission = record { id = 91; status = unsupported; rationale = "too large" };
}

abbrev start_request : ℕ → Request
start_request request_id = record {
  id = request_id;
  camera_id = 7;
  edge_node_id = none;
  assignment_id = none;
  action = start_action;
  admission_report_id = none;
  payload = "{}";
}

abbrev stop_request : ℕ → Request
stop_request request_id = record (start_request request_id) { action = stop_action }

abbrev supervised_worker : Worker
supervised_worker = record {
  camera_id = 7;
  node_id = some 2;
  assignment_id = none;
  desired_state = supervised;
  lifecycle_owner = edge_supervisor;
  restart_policy = on_failure;
  runtime_report = some (record { in_error = true; restart_count = 2 });
  latest_admission_id = none;
}

stop-is_running_example :
    (is_running one_process broken 7 ≡ true)
    × (is_running (stop one_process broken 7).1 broken 7 ≡ false)
unfolding lookup
stop-is_running_example = stop-is_running one_process broken broken 7 40 refl refl

process_all-duplicate_start_example :
    let before =
      process_all
        (process_claimed_request empty_pass (start_request 1) (answers_of healthy))
        ((stop_request 2, answers_of healthy) ∷ []) in
    process_claimed_request before (start_request 3) (refusal_of broken) ≡ record before {
      events =
          (before.events ++ reported 3 running none ∷ []) ++ concluded 3 completed none none ∷ [];
    }
unfolding start lookup start_key
process_all-duplicate_start_example =
    process_all-duplicate_start empty_pass (start_request 1) (start_request 3) (answers_of healthy)
      (refusal_of broken) ((stop_request 2, answers_of healthy) ∷ []) refl refl refl refl refl

process_claimed_request-empty_error_example :
    (process_claimed_request empty_pass (start_request 1) (answers_of broken)).events
    ≡ ([] ++ reported 1 error (some "") ∷ []) ++ concluded 1 completed (some 90) (some "") ∷ []
unfolding has_started is_running lookup
process_claimed_request-empty_error_example =
    process_claimed_request-empty_error empty_pass (start_request 1) (answers_of broken) refl refl
      refl refl refl

recover-IsOwed_example :
    Recovered empty_pass
      (some 2)
      supervised_worker
      5
      (answers_of healthy)
      (recover empty_pass (some 2) supervised_worker 5 (answers_of healthy))
recover-IsOwed_example = recover-IsOwed empty_pass (some 2) supervised_worker 5 (answers_of healthy)

abbrev edge_launch : LaunchConfig
edge_launch = record {
  python_executable = "python";
  module_name = "argus.inference.engine";
  api_base_url = some "http://master";
  bearer_token = some "old";
  edge_node_id = some "2";
  extra_env = some (("ARGUS_API_BASE_URL", "http://other") ∷ []);
  base_env = none;
}

environment-lookup_example :
    lookup "ARGUS_API_BASE_URL" (environment edge_launch [] (some (some "new")))
    ≡ or_else (lookup "ARGUS_API_BASE_URL" (or_empty edge_launch.extra_env)) (
        or_else (for_key "ARGUS_EDGE_NODE_ID" "ARGUS_API_BASE_URL" edge_launch.edge_node_id) (
          or_else
            (for_key "ARGUS_API_BEARER_TOKEN" "ARGUS_API_BASE_URL"
              (if_truthy (bearer_token edge_launch (some (some "new")))))
            (or_else
              (for_key "ARGUS_API_BASE_URL" "ARGUS_API_BASE_URL"
                (if_truthy edge_launch.api_base_url))
              (lookup "ARGUS_API_BASE_URL" (or_os edge_launch.base_env [])))))
unfolding lookup
environment-lookup_example =
    environment-lookup edge_launch [] (some (some "new")) "ARGUS_API_BASE_URL" (refl, tt)
