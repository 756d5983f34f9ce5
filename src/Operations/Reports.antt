-- ===== src/Operations/Reports.antt =====
-- The reports that backend/src/argus/services/supervisor_operations.py stores and looks up: those of
-- workers, of hardware, and of model admissions. A table is its rows, the newest insertion first; JSON
-- values are texts, and times are microseconds.
pub mod Current
use vision.Common.{
  ℕ, ◌+◌, String, Bool, true, false, not, Option, none, some, List, [], ◌∷◌, Dict, insert, member,
  contains, keep, sorted, ltb, is_some, ◌==◌, ◌&&◌, if◌then◌else◌, compare_nat, compare_string,
}
use vision.Operations.Latest.{is_newer, first_of, keep_first}

pub data WorkerRuntimeState : Type 0 where
  starting running stopped draining error unknown : WorkerRuntimeState

pub record SupervisorRuntimeReportCreate : Type 0 where
  pub camera_id : ℕ
  pub edge_node_id : Option ℕ
  pub assignment_id : Option ℕ
  pub heartbeat_at : ℕ
  pub runtime_state : WorkerRuntimeState
  pub restart_count : ℕ
  pub last_error : Option String
  pub runtime_artifact_id : Option ℕ
  pub scene_contract_hash : Option String

pub record WorkerRuntimeReport : Type 0 where
  pub tenant_id : ℕ
  pub camera_id : ℕ
  pub edge_node_id : Option ℕ
  pub assignment_id : Option ℕ
  pub heartbeat_at : ℕ
  pub runtime_state : WorkerRuntimeState
  pub restart_count : ℕ
  pub last_error : Option String
  pub runtime_artifact_id : Option ℕ
  pub scene_contract_hash : Option String

abbrev pub heartbeat : WorkerRuntimeReport → ℕ
heartbeat row = row.heartbeat_at

unfoldable pub record_runtime_report :
    List WorkerRuntimeReport
    → ℕ
    → SupervisorRuntimeReportCreate
    → WorkerRuntimeReport × List WorkerRuntimeReport
record_runtime_report table tenant_id payload =
    let row : WorkerRuntimeReport = record {
      tenant_id = tenant_id;
      camera_id = payload.camera_id;
      edge_node_id = payload.edge_node_id;
      assignment_id = payload.assignment_id;
      heartbeat_at = payload.heartbeat_at;
      runtime_state = payload.runtime_state;
      restart_count = payload.restart_count;
      last_error = payload.last_error;
      runtime_artifact_id = payload.runtime_artifact_id;
      scene_contract_hash = payload.scene_contract_hash;
    } in
    (row, row ∷ table)

unfoldable pub latest_runtime_reports_by_camera :
    List WorkerRuntimeReport → ℕ → List ℕ → Dict ℕ WorkerRuntimeReport
unfolding keep_first
latest_runtime_reports_by_camera table tenant_id camera_ids =
    keep_first (λ row. row.camera_id) camera_ids []
      (sorted (is_newer heartbeat) (keep (λ row. row.tenant_id == tenant_id) table))

pub record EdgeNodeHardwareReportCreate : Type 0 where
  pub edge_node_id : Option ℕ
  pub reported_at : ℕ
  pub host_profile : String
  pub os_name : String
  pub machine_arch : String
  pub cpu_model : Option String
  pub cpu_cores : Option ℕ
  pub memory_total_mb : Option ℕ
  pub accelerators : List String
  pub provider_capabilities : Dict String Bool
  pub observed_performance : List String
  pub thermal_state : Option String

pub record EdgeNodeHardwareReport : Type 0 where
  pub tenant_id : ℕ
  pub edge_node_id : Option ℕ
  pub supervisor_id : String
  pub reported_at : ℕ
  pub host_profile : String
  pub os_name : String
  pub machine_arch : String
  pub cpu_model : Option String
  pub cpu_cores : Option ℕ
  pub memory_total_mb : Option ℕ
  pub accelerators : List String
  pub provider_capabilities : Dict String Bool
  pub observed_performance : List String
  pub thermal_state : Option String
  pub report_hash : String

abbrev pub reported : EdgeNodeHardwareReport → ℕ
reported row = row.reported_at

-- `digest` is SHA-256 of the JSON text of the payload with the supervisor's id.
unfoldable pub record_hardware_report :
    (String → EdgeNodeHardwareReportCreate → String)
    → List EdgeNodeHardwareReport
    → ℕ
    → String
    → EdgeNodeHardwareReportCreate
    → EdgeNodeHardwareReport × List EdgeNodeHardwareReport
record_hardware_report digest table tenant_id supervisor_id payload =
    let row : EdgeNodeHardwareReport = record {
      tenant_id = tenant_id;
      edge_node_id = payload.edge_node_id;
      supervisor_id = supervisor_id;
      reported_at = payload.reported_at;
      host_profile = payload.host_profile;
      os_name = payload.os_name;
      machine_arch = payload.machine_arch;
      cpu_model = payload.cpu_model;
      cpu_cores = payload.cpu_cores;
      memory_total_mb = payload.memory_total_mb;
      accelerators = payload.accelerators;
      provider_capabilities = payload.provider_capabilities;
      observed_performance = payload.observed_performance;
      thermal_state = payload.thermal_state;
      report_hash = digest supervisor_id payload;
    } in
    (row, row ∷ table)

abbrev newest_reports : List EdgeNodeHardwareReport → ℕ → List EdgeNodeHardwareReport
newest_reports table tenant_id =
    sorted (is_newer reported) (keep (λ row. row.tenant_id == tenant_id) table)

abbrev add_for_node :
    List ℕ
    → Dict ℕ EdgeNodeHardwareReport
    → EdgeNodeHardwareReport
    → Option ℕ
    → Dict ℕ EdgeNodeHardwareReport
add_for_node node_ids latest row none = latest
add_for_node node_ids latest row (some node_id) =
    if contains node_ids node_id && not (member node_id latest)
    then insert node_id row latest
    else latest

unfoldable pub keep_first_of_node :
    List ℕ
    → Dict ℕ EdgeNodeHardwareReport
    → List EdgeNodeHardwareReport
    → Dict ℕ EdgeNodeHardwareReport
keep_first_of_node node_ids latest [] = latest
keep_first_of_node node_ids latest (row ∷ rows) =
    keep_first_of_node node_ids (add_for_node node_ids latest row row.edge_node_id) rows

unfoldable pub latest_hardware_reports_by_edge_node :
    List EdgeNodeHardwareReport → ℕ → List ℕ → Dict ℕ EdgeNodeHardwareReport
unfolding keep_first_of_node
latest_hardware_reports_by_edge_node table tenant_id edge_node_ids =
    keep_first_of_node edge_node_ids [] (newest_reports table tenant_id)

unfoldable pub latest_hardware_report_for_supervisor :
    List EdgeNodeHardwareReport → ℕ → String → Option EdgeNodeHardwareReport
latest_hardware_report_for_supervisor table tenant_id supervisor_id =
    first_of (keep (λ row. row.supervisor_id == supervisor_id) (newest_reports table tenant_id))

unfoldable pub latest_hardware_report_for_central :
    List EdgeNodeHardwareReport → ℕ → Option EdgeNodeHardwareReport
latest_hardware_report_for_central table tenant_id =
    first_of (keep (λ row. not (is_some row.edge_node_id)) (newest_reports table tenant_id))

pub data WorkerRuntimeStatus : Type 0 where
  not_reported unknown_status running_status offline : WorkerRuntimeStatus

-- Fifteen minutes.
abbrev pub report_stale_after : ℕ
report_stale_after = 900000000

abbrev pub status_of_state : WorkerRuntimeState → WorkerRuntimeStatus
status_of_state starting = running_status
status_of_state running = running_status
status_of_state draining = running_status
status_of_state stopped = offline
status_of_state error = offline
status_of_state unknown = unknown_status

-- `now - heartbeat_at > REPORT_STALE_AFTER`; a heartbeat after `now` is not stale.
unfoldable pub runtime_status_for_report : Option WorkerRuntimeReport → ℕ → WorkerRuntimeStatus
runtime_status_for_report none now = not_reported
runtime_status_for_report (some report) now =
    if ltb (report.heartbeat_at + report_stale_after) now
    then unknown_status
    else status_of_state report.runtime_state
