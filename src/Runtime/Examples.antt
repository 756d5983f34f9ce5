-- ===== src/Runtime/Examples.antt =====
-- The theorems of the runtime's choice at concrete inputs, over signed thousandths.
use vision.Common.{
  ◌≡◌, refl, true, false, not, ◌&&◌, none, some, [], ◌∷◌, any, keep, is_some, str_eq, contains,
  insert,
}
use vision.Common.Fixed.{pos, fixed, quotient}
use vision.Runtime.Selection.{
  onnx_export, tensorrt_engine, fixed_vocab, onnx_first, RuntimeArtifactCandidate,
  RuntimeModelCandidate, RuntimeSelectionPolicy, is_dynamic, artifact_preference_of,
  fallback_allowed_of, preferred_artifact_kinds, select_runtime_artifact, matching_target,
  matching_vocabulary, artifact_matches_vocabulary, finish, choose_kind, first_kind,
  artifact_selection,
}
use vision.Runtime.Selection.Choice.{
  chosen, is_raised, is_supported_kind, is_fitting, select_runtime_artifact-is_fitting,
  select_runtime_artifact-is_raised,
}
use vision.Runtime.Admission.{
  Texts, HardwareReport, WorkerModelAdmissionRequest, evaluate_worker_model_admission,
  frame_budget_ms, evaluate_on, has_target_mismatch, backend_available, backend_of, providers,
  accelerators_of, open_world_cpu_production_stream, judge_sample, matching_performance_sample,
  is_matching_sample, judge_total, stage_total_ms, lower_keys,
}
use vision.Runtime.Admission.Decision.{evaluate_worker_model_admission-IsRecommended, IsRecommended}

-- Lower-case names throughout; a part is the whole text.
instance abbrev plain : Texts
plain = record { lower = λ text. text; includes = λ part text. str_eq part text }

abbrev on_jetson : RuntimeArtifactCandidate
on_jetson = record {
  id = 1;
  kind = tensorrt_engine;
  capability = fixed_vocab;
  runtime_backend = "tensorrt";
  target_profile = "jetson";
  vocabulary_hash = none;
}

abbrev export_on_jetson : RuntimeArtifactCandidate
export_on_jetson = record on_jetson { id = 2; kind = onnx_export; runtime_backend = "onnxruntime" }

abbrev model : RuntimeModelCandidate
model = record { capability = fixed_vocab; config_backend = none }

abbrev strict : RuntimeSelectionPolicy
strict = record {
  profile_id = some 3;
  profile_name = some "strict";
  profile_hash = none;
  preferred_backend = none;
  artifact_preference = onnx_first;
  fallback_allowed = false;
}

select_runtime_artifact-is_fitting_example :
    (export_on_jetson.target_profile ≡ export_on_jetson.target_profile)
    × (is_fitting model "jetson" none export_on_jetson ≡ true)
    × (is_supported_kind export_on_jetson.kind ≡ true)
unfolding select_runtime_artifact matching_target keep matching_vocabulary
    artifact_matches_vocabulary artifact_preference_of finish choose_kind first_kind
    preferred_artifact_kinds artifact_selection any
select_runtime_artifact-is_fitting_example =
    select_runtime_artifact-is_fitting model "jetson" (on_jetson ∷ export_on_jetson ∷ []) none
      (some strict) (λ a. a.target_profile ≡ a.target_profile) export_on_jetson (refl, (refl, tt))
      refl

select_runtime_artifact-is_raised_example :
    let found =
      not (is_dynamic (artifact_preference_of (some strict)))
      && any (λ a. is_fitting model "xavier" none a && is_supported_kind a.kind) (on_jetson ∷ []) in
    (is_some (chosen (select_runtime_artifact model "xavier" (on_jetson ∷ []) none (some strict)))
      ≡ found)
    × (is_raised (select_runtime_artifact model "xavier" (on_jetson ∷ []) none (some strict))
        ≡ (not (fallback_allowed_of (some strict)) && not found))
select_runtime_artifact-is_raised_example =
    select_runtime_artifact-is_raised model "xavier" (on_jetson ∷ []) none (some strict)

abbrev report : HardwareReport
report = record {
  host_profile = some "jetson";
  accelerators = "cuda" ∷ [];
  provider_capabilities = [];
  observed_performance =
      record {
        runtime_backend = some "tensorrt";
        model_id = some 5;
        model_name = none;
        stage_p95_ms = some (some (pos 40000));
      }
      ∷ [];
}

abbrev request : WorkerModelAdmissionRequest
request = record {
  model_id = some 5;
  model_name = some "detector";
  model_capability = fixed_vocab;
  runtime_artifact_target_profile = some "jetson";
  selected_backend = some "tensorrt";
  preferred_backend = none;
  runtime_selection_profile_id = none;
  fallback_allowed = true;
  stream_profile = record {
    fps = some (pos 10000);
    target_fps = none;
    height = none;
    input_height = none;
  };
}

evaluate_worker_model_admission-IsRecommended_example : IsRecommended request report
unfolding evaluate_worker_model_admission evaluate_on has_target_mismatch backend_available
    backend_of any providers contains accelerators_of open_world_cpu_production_stream judge_sample
    matching_performance_sample is_matching_sample judge_total stage_total_ms frame_budget_ms
    quotient insert lower_keys
evaluate_worker_model_admission-IsRecommended_example =
    evaluate_worker_model_admission-IsRecommended request report refl
