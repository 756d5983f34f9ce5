-- ===== src/Runtime/Admission.antt =====
-- backend/src/argus/services/model_admission.py: may a worker run a model on its node. The text
-- methods `lower` and `in` are an interface, and a rationale is the values its text is formatted
-- from. A hardware report is a record of the keys that the source reads, `none` where one is missing.
pub mod Decision
use vision.Common.{
  ℕ, ◌≡◌, String, Bool, true, false, not, ◌&&◌, ◌||◌, Option, none, some, List, [], ◌∷◌, Dict,
  insert, any, map, contains, if◌then◌else◌, str_eq, leb, ◌==◌, compare_nat, compare_string,
  compare_option, is_some,
}
use vision.Common.Float.{Floats, Float, ◌/◌}
use vision.Runtime.Selection.{DetectorCapability, fixed_vocab, open_vocab, is_empty}

-- `text.lower()` and `part in text`.
pub record Texts : Type 0 where
  pub lower : String → String
  pub includes : (part text : String) → Bool

pub data ModelAdmissionStatus : Type 0 where
  recommended supported degraded unsupported unknown : ModelAdmissionStatus

module _ ⦃fl : Floats⦄ ⦃texts : Texts⦄ where
  pub record StreamProfile : Type 0 where
    pub fps : Option Float
    pub target_fps : Option Float
    pub height : Option ℕ
    pub input_height : Option ℕ

  pub record PerformanceSample : Type 0 where
    pub runtime_backend : Option String
    pub model_id : Option ℕ
    pub model_name : Option String
    -- `stage_p95_ms`, if it is a dictionary, and its `total`.
    pub stage_p95_ms : Option (Option Float)

  pub record HardwareReport : Type 0 where
    pub host_profile : Option String
    pub accelerators : List String
    pub provider_capabilities : Dict String Bool
    pub observed_performance : List PerformanceSample

  pub record WorkerModelAdmissionRequest : Type 0 where
    pub model_id : Option ℕ
    pub model_name : Option String
    pub model_capability : DetectorCapability
    pub runtime_artifact_target_profile : Option String
    pub selected_backend : Option String
    pub preferred_backend : Option String
    pub runtime_selection_profile_id : Option ℕ
    pub fallback_allowed : Bool
    pub stream_profile : StreamProfile

  pub record Constraints : Type 0 where
    pub frame_budget_ms : Float
    pub selected_backend : String
    pub preferred_backend : Option String
    pub runtime_selection_profile_id : Option ℕ
    pub fallback_allowed : Bool
    pub observed_p95_total_ms : Option (Option Float)

  pub data Rationale : Type 0 where
    no_report : Rationale
    target_mismatch : (target host : String) → Rationale
    backend_missing : (backend : String) → Rationale
    open_world_on_cpu : Rationale
    no_sample : (backend : String) → Rationale
    fits_budget : (backend : String) (p95 budget : Float) → Rationale
    exceeds_budget : (backend : String) (p95 budget : Float) → Rationale
    incomplete_sample : (backend : String) → Rationale

  pub record ModelAdmissionDecision : Type 0 where
    pub status : ModelAdmissionStatus
    pub rationale : Rationale
    pub constraints : Option Constraints
    pub recommended_model_name : Option String
    pub recommended_backend : Option String

  -- `a or b` of two texts that may be missing.
  abbrev pub or_text : Option String → String → String
  or_text none b = b
  or_text (some a) b = if str_eq a "" then b else a

  abbrev is_zero : Float → Bool
  is_zero x = fl.le x (fl.decimal 0 0) && fl.le (fl.decimal 0 0) x

  abbrev pub or_float : Option Float → Float → Float
  or_float none b = b
  or_float (some a) b = if is_zero a then b else a

  abbrev pub or_nat : Option ℕ → ℕ → ℕ
  or_nat none b = b
  or_nat (some a) b = if a == 0 then b else a

  unfoldable pub frame_budget_ms : StreamProfile → Float
  frame_budget_ms p =
      let fps = or_float p.fps (or_float p.target_fps (fl.decimal 10 0)) in
      fl.decimal 1000 0 / (if fl.le fps (fl.decimal 0 0) then fl.decimal 10 0 else fps)

  -- Keys that agree in lower case become one, with the later value.
  unfoldable pub lower_keys : Dict String Bool → Dict String Bool → Dict String Bool
  lower_keys lowered [] = lowered
  lower_keys lowered ((key, value) ∷ rest) =
      lower_keys (insert (texts.lower key) value lowered) rest

  unfoldable pub providers : HardwareReport → Dict String Bool
  unfolding lower_keys
  providers report = lower_keys [] report.provider_capabilities

  unfoldable pub accelerators_of : HardwareReport → List String
  accelerators_of report = map texts.lower report.accelerators

  abbrev pub provides : String → Dict String Bool → Bool
  provides part ps = any (λ p. texts.includes part p.0 && p.1) ps

  unfoldable pub backend_available : String → HardwareReport → Bool
  backend_available backend report =
      let backend_lower = texts.lower backend in
      let accelerators = accelerators_of report in
      if texts.includes "tensorrt" backend_lower
      then provides "tensorrt" (providers report)
        || contains accelerators "tensorrt"
        || contains accelerators "cuda"
        || contains accelerators "nvidia"
      else (if texts.includes "coreml" backend_lower
          then provides "coreml" (providers report) || contains accelerators "coreml"
          else (if texts.includes "onnx" backend_lower
              then any (λ p. p.1) (providers report) || is_empty (providers report)
              else true))

  abbrev pub is_open_vocab : DetectorCapability → Bool
  is_open_vocab open_vocab = true
  is_open_vocab fixed_vocab = false

  abbrev pub is_accelerator : String → Bool
  is_accelerator value =
      not (str_eq (texts.lower value) "cpu") && not (str_eq (texts.lower value) "none")

  unfoldable pub open_world_cpu_production_stream :
      WorkerModelAdmissionRequest → HardwareReport → Bool
  open_world_cpu_production_stream request report =
      let profile = request.stream_profile in
      let height = or_nat profile.height (or_nat profile.input_height 0) in
      let fps = or_float profile.fps (or_float profile.target_fps (fl.decimal 0 0)) in
      is_open_vocab request.model_capability
      && not (any is_accelerator report.accelerators)
      && leb 720 height
      && fl.le (fl.decimal 10 0) fps

  -- `a is not None and b == a`
  abbrev pub has_id : Option ℕ → Option ℕ → Bool
  has_id none b = false
  has_id (some a) b = b == some a

  -- `a and b == a`
  abbrev pub has_name : Option String → Option String → Bool
  has_name none b = false
  has_name (some a) b = not (str_eq a "") && b == some a

  unfoldable pub is_matching_sample :
      WorkerModelAdmissionRequest → String → PerformanceSample → Bool
  is_matching_sample request backend sample =
      sample.runtime_backend == some backend
      && (has_id request.model_id sample.model_id || has_name request.model_name sample.model_name)

  unfoldable pub matching_performance_sample :
      WorkerModelAdmissionRequest → String → List PerformanceSample → Option PerformanceSample
  matching_performance_sample request backend [] = none
  matching_performance_sample request backend (sample ∷ samples) =
      if is_matching_sample request backend sample
      then some sample
      else matching_performance_sample request backend samples

  unfoldable pub stage_total_ms : PerformanceSample → Option Float
  stage_total_ms sample = elim sample.stage_p95_ms [ none ↦ none | some total ↦ total ]

  unfoldable pub recommended_backend : HardwareReport → String
  recommended_backend report =
      if provides "tensorrt" (providers report) || contains (accelerators_of report) "tensorrt"
      then "tensorrt_engine"
      else (if provides "coreml" (providers report) || contains (accelerators_of report) "coreml"
          then "CoreMLExecutionProvider"
          else "onnxruntime")

  unfoldable pub backend_of : WorkerModelAdmissionRequest → String
  backend_of request =
      or_text request.selected_backend (or_text request.preferred_backend "onnxruntime")

  unfoldable pub constraints_of : WorkerModelAdmissionRequest → Constraints
  constraints_of request = record {
    frame_budget_ms = frame_budget_ms request.stream_profile;
    selected_backend = backend_of request;
    preferred_backend = request.preferred_backend;
    runtime_selection_profile_id = request.runtime_selection_profile_id;
    fallback_allowed = request.fallback_allowed;
    observed_p95_total_ms = none;
  }

  -- Both profiles are given, and they differ.
  unfoldable pub has_target_mismatch : WorkerModelAdmissionRequest → HardwareReport → Bool
  has_target_mismatch request report =
      let target = or_text request.runtime_artifact_target_profile "" in
      let host = or_text report.host_profile "" in
      not (str_eq target "") && not (str_eq host "") && not (str_eq target host)

  unfoldable pub refuse :
      WorkerModelAdmissionRequest
      → HardwareReport
      → Rationale
      → Option String
      → ModelAdmissionDecision
  refuse request report rationale model_name = record {
    status = unsupported;
    rationale = rationale;
    constraints = some (constraints_of request);
    recommended_model_name = model_name;
    recommended_backend = some (recommended_backend report);
  }

  unfoldable pub degrade :
      WorkerModelAdmissionRequest
      → HardwareReport
      → Option Float
      → Rationale
      → ModelAdmissionDecision
  degrade request report total rationale = record {
    status = degraded;
    rationale = rationale;
    constraints = some (record (constraints_of request) { observed_p95_total_ms = some total });
    recommended_model_name = some "YOLO26n COCO";
    recommended_backend = some (recommended_backend report);
  }

  -- The sample's p95 total against the frame budget.
  unfoldable pub judge_total :
      WorkerModelAdmissionRequest → HardwareReport → Option Float → ModelAdmissionDecision
  judge_total request report none =
      degrade request report none (incomplete_sample (backend_of request))
  judge_total request report (some total) =
      let budget = frame_budget_ms request.stream_profile in
      let backend = backend_of request in
      if fl.le total budget
      then record {
        status = recommended;
        rationale = fits_budget backend total budget;
        constraints =
            some (record (constraints_of request) { observed_p95_total_ms = some (some total) });
        recommended_model_name = none;
        recommended_backend = some backend;
      }
      else degrade request report (some total) (exceeds_budget backend total budget)

  unfoldable pub judge_sample :
      WorkerModelAdmissionRequest
      → HardwareReport
      → Option PerformanceSample
      → ModelAdmissionDecision
  judge_sample request report none = record {
    status = supported;
    rationale = no_sample (backend_of request);
    constraints = some (constraints_of request);
    recommended_model_name = none;
    recommended_backend = some (backend_of request);
  }
  judge_sample request report (some sample) = judge_total request report (stage_total_ms sample)

  unfoldable pub evaluate_on : WorkerModelAdmissionRequest → HardwareReport → ModelAdmissionDecision
  evaluate_on request report =
      let backend = backend_of request in
      if has_target_mismatch request report
      then refuse request report
          (target_mismatch (or_text request.runtime_artifact_target_profile "")
            (or_text report.host_profile ""))
          none
      else (if not (backend_available backend report)
          then refuse request report (backend_missing backend) none
          else (if open_world_cpu_production_stream request report
              then refuse request report open_world_on_cpu (some "YOLO26n COCO")
              else judge_sample request report
                  (matching_performance_sample request backend report.observed_performance)))

  unfoldable pub evaluate_worker_model_admission :
      WorkerModelAdmissionRequest → Option HardwareReport → ModelAdmissionDecision
  evaluate_worker_model_admission request none = record {
    status = unknown;
    rationale = no_report;
    constraints = none;
    recommended_model_name = none;
    recommended_backend = none;
  }
  evaluate_worker_model_admission request (some report) = evaluate_on request report
