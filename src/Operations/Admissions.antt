-- ===== src/Operations/Admissions.antt =====
-- The stored admissions of models, in backend/src/argus/services/supervisor_operations.py. JSON values
-- are texts; a decision is given with its rationale and constraints as texts.
use vision.Common.{ℕ, String, Option, List, [], ◌∷◌, Dict, keep, sorted, ◌==◌, compare_nat}
use vision.Runtime.Selection.{DetectorCapability}
use vision.Runtime.Admission.{ModelAdmissionStatus}
use vision.Operations.Latest.{is_newer, keep_first}

pub record AdmissionPayload : Type 0 where
  pub camera_id : ℕ
  pub edge_node_id : Option ℕ
  pub assignment_id : Option ℕ
  pub model_id : Option ℕ
  pub model_name : Option String
  pub model_capability : DetectorCapability
  pub runtime_artifact_id : Option ℕ
  pub runtime_selection_profile_id : Option ℕ
  pub stream_profile : String
  pub selected_backend : Option String

pub record AdmissionVerdict : Type 0 where
  pub status : ModelAdmissionStatus
  pub rationale : String
  pub constraints : String
  pub recommended_model_id : Option ℕ
  pub recommended_model_name : Option String
  pub recommended_runtime_profile_id : Option ℕ
  pub recommended_backend : Option String

pub record WorkerModelAdmissionReport : Type 0 where
  pub tenant_id : ℕ
  pub camera_id : ℕ
  pub edge_node_id : Option ℕ
  pub assignment_id : Option ℕ
  pub hardware_report_id : Option ℕ
  pub model_id : Option ℕ
  pub model_name : Option String
  pub model_capability : DetectorCapability
  pub runtime_artifact_id : Option ℕ
  pub runtime_selection_profile_id : Option ℕ
  pub stream_profile : String
  pub status : ModelAdmissionStatus
  pub selected_backend : Option String
  pub recommended_model_id : Option ℕ
  pub recommended_model_name : Option String
  pub recommended_runtime_profile_id : Option ℕ
  pub recommended_backend : Option String
  pub rationale : String
  pub constraints : String
  pub evaluated_at : ℕ

unfoldable pub record_model_admission :
    List WorkerModelAdmissionReport
    → ℕ
    → AdmissionPayload
    → Option ℕ
    → AdmissionVerdict
    → ℕ
    → WorkerModelAdmissionReport × List WorkerModelAdmissionReport
record_model_admission table tenant_id payload hardware_report_id decision now =
    let row : WorkerModelAdmissionReport = record {
      tenant_id = tenant_id;
      camera_id = payload.camera_id;
      edge_node_id = payload.edge_node_id;
      assignment_id = payload.assignment_id;
      hardware_report_id = hardware_report_id;
      model_id = payload.model_id;
      model_name = payload.model_name;
      model_capability = payload.model_capability;
      runtime_artifact_id = payload.runtime_artifact_id;
      runtime_selection_profile_id = payload.runtime_selection_profile_id;
      stream_profile = payload.stream_profile;
      status = decision.status;
      selected_backend = payload.selected_backend;
      recommended_model_id = decision.recommended_model_id;
      recommended_model_name = decision.recommended_model_name;
      recommended_runtime_profile_id = decision.recommended_runtime_profile_id;
      recommended_backend = decision.recommended_backend;
      rationale = decision.rationale;
      constraints = decision.constraints;
      evaluated_at = now;
    } in
    (row, row ∷ table)

unfoldable pub record_model_admission_decision :
    List WorkerModelAdmissionReport
    → ℕ
    → AdmissionPayload
    → Option ℕ
    → AdmissionVerdict
    → ℕ
    → WorkerModelAdmissionReport × List WorkerModelAdmissionReport
unfolding record_model_admission
record_model_admission_decision table tenant_id payload hardware_report_id decision now =
    record_model_admission table tenant_id payload hardware_report_id decision now

abbrev pub evaluated : WorkerModelAdmissionReport → ℕ
evaluated row = row.evaluated_at

unfoldable pub latest_model_admissions_by_camera :
    List WorkerModelAdmissionReport → ℕ → List ℕ → Dict ℕ WorkerModelAdmissionReport
unfolding keep_first
latest_model_admissions_by_camera table tenant_id camera_ids =
    keep_first (λ row. row.camera_id) camera_ids []
      (sorted (is_newer evaluated) (keep (λ row. row.tenant_id == tenant_id) table))
