-- ===== src/Runtime/Admission/Decision.antt =====
-- What a recommendation of a worker's model rests on.
use vision.Common.{
  ℕ, ◌≡◌, ◌⊎◌, inl, inr, refl, ap, sym, ◌∙◌, String, true, false, Option, none, some, List, [], ◌∷◌,
  ◌++◌, any, arith, ◌<◌, leb, Bool-cases, eq_iff, option_beq_iff, compare_nat, compare_string,
  str_eq,
}
use vision.Common.Float.{Floats, Float}
use vision.Runtime.Selection.{fixed_vocab, open_vocab, DetectorCapability}
use vision.Runtime.Admission.{
  Texts, recommended, PerformanceSample, HardwareReport, WorkerModelAdmissionRequest,
  frame_budget_ms, backend_available, is_accelerator, is_open_vocab, or_nat, or_float, or_text,
  open_world_cpu_production_stream, is_matching_sample, matching_performance_sample, stage_total_ms,
  backend_of, has_target_mismatch, refuse, degrade, judge_total, judge_sample, evaluate_on,
  evaluate_worker_model_admission, has_id, has_name,
}

module _ ⦃fl : Floats⦄ ⦃texts : Texts⦄ where
  -- A sample of the model: it has the id that is asked for, or else the name.
  abbrev pub IsOfModel : WorkerModelAdmissionRequest → PerformanceSample → Type 0
  IsOfModel request sample =
      ((id : ℕ) × (request.model_id ≡ some id) × (sample.model_id ≡ some id))
      ⊎ ((model_name : String) × (request.model_name ≡ some model_name)
          × (sample.model_name ≡ some model_name))

  -- The model is no open-vocabulary one, or the node has an accelerator, or the stream has fewer than
  -- 720 lines or fewer than ten frames a second.
  abbrev pub IsBearable : WorkerModelAdmissionRequest → HardwareReport → Type 0
  IsBearable request report =
      let profile = request.stream_profile in
      (request.model_capability ≡ fixed_vocab)
      ⊎ (any is_accelerator report.accelerators ≡ true)
      ⊎ (or_nat profile.height (or_nat profile.input_height 0) < 720)
      ⊎ (fl.le (fl.decimal 10 0)
            (or_float profile.fps (or_float profile.target_fps (fl.decimal 0 0)))
          ≡ false)

  -- What a recommendation rests on.
  pub record IsRecommended (request : WorkerModelAdmissionRequest) (report : HardwareReport)
      : Type 0 where
    pub before : List PerformanceSample
    pub sample : PerformanceSample
    pub after : List PerformanceSample
    pub observed : report.observed_performance ≡ before ++ sample ∷ after
    pub same_backend : sample.runtime_backend ≡ some (backend_of request)
    pub same_model : IsOfModel request sample
    pub total : Float
    pub measured : sample.stage_p95_ms ≡ some (some total)
    pub within : fl.le total (frame_budget_ms request.stream_profile) ≡ true
    pub same_target :
        (or_text request.runtime_artifact_target_profile "" ≡ "")
        ⊎ (or_text report.host_profile "" ≡ "")
        ⊎ (or_text request.runtime_artifact_target_profile "" ≡ or_text report.host_profile "")
    pub available : backend_available (backend_of request) report ≡ true
    pub bearable : IsBearable request report

  has_id-eq : (a b : Option ℕ) → has_id a b ≡ true → (id : ℕ) × (a ≡ some id) × (b ≡ some id)
  has_id-eq none b h = cc
  has_id-eq (some a) b h = (a, refl, (option_beq_iff compare_nat b (some a)).0 h)

  has_name-eq :
      (a b : Option String)
      → has_name a b ≡ true
      → (text : String) × (a ≡ some text) × (b ≡ some text)
  has_name-eq none b h = cc
  has_name-eq (some a) b h = (a, refl, (option_beq_iff compare_string b (some a)).0 (ground arith))

  -- A sample that is found is in the list, and matches.
  matching_lem :
      (request : WorkerModelAdmissionRequest) (backend : String) (samples : List PerformanceSample)
      (sample : PerformanceSample)
      → matching_performance_sample request backend samples ≡ some sample
      → (before : List PerformanceSample) × (after : List PerformanceSample) × (samples
          ≡ before ++ sample ∷ after)
        × (is_matching_sample request backend sample ≡ true)
  unfolding matching_performance_sample
  matching_lem request backend [] sample e = cc
  matching_lem request backend (x ∷ xs) sample e =
      elim (Bool-cases (is_matching_sample request backend x)) [
        | inl hit ↦
            let same : x ≡ sample = ground (arith, hit, e) in
            (
              [],
              xs,
              ap (λ y. y ∷ xs) same,
              ap (is_matching_sample request backend) (sym same) ∙ hit,
            )
        | inr miss ↦
            let (before, after, split, matches) =
              matching_lem request backend xs sample (ground (arith, miss, e)) in
            (x ∷ before, after, ap (◌∷◌ x) split, matches)
      ]

  is_fixed : (c : DetectorCapability) → is_open_vocab c ≡ false → c ≡ fixed_vocab
  is_fixed open_vocab h = cc
  is_fixed fixed_vocab h = refl

  bearable_lem :
      (request : WorkerModelAdmissionRequest) (report : HardwareReport)
      → open_world_cpu_production_stream request report ≡ false
      → IsBearable request report
  unfolding open_world_cpu_production_stream
  bearable_lem request report h =
      let profile = request.stream_profile in
      let height = or_nat profile.height (or_nat profile.input_height 0) in
      let fps = or_float profile.fps (or_float profile.target_fps (fl.decimal 0 0)) in
      elim (Bool-cases (is_open_vocab request.model_capability)) [
        | inr fixed ↦ inl (is_fixed request.model_capability fixed)
        | inl free ↦ elim (Bool-cases (any is_accelerator report.accelerators)) [
          | inl fast ↦ inr (inl fast)
          | inr slow ↦ elim (Bool-cases (leb 720 height)) [
            | inr few ↦ inr (inr (inl (ground (arith, few))))
            | inl many ↦ inr (inr (inr (ground (arith, h, free, slow, many))))
          ]
        ]
      ]

  target_lem :
      (request : WorkerModelAdmissionRequest) (report : HardwareReport)
      → has_target_mismatch request report ≡ false
      → let target = or_text request.runtime_artifact_target_profile "" in
        let host = or_text report.host_profile "" in (target ≡ "") ⊎ (host ≡ "") ⊎ (target ≡ host)
  unfolding has_target_mismatch
  target_lem request report h =
      let target = or_text request.runtime_artifact_target_profile "" in
      let host = or_text report.host_profile "" in
      elim (Bool-cases (str_eq target "")) [
        | inl e ↦ inl ((eq_iff target "").0 e)
        | inr given ↦ elim (Bool-cases (str_eq host "")) [
          | inl e ↦ inr (inl ((eq_iff host "").0 e))
          | inr named ↦ inr (inr ((eq_iff target host).0 (ground (arith, h, given, named))))
        ]
      ]

  -- What is read off a sample that the decision recommends.
  judge_sample_lem :
      (request : WorkerModelAdmissionRequest) (report : HardwareReport)
      (o : Option PerformanceSample)
      → (judge_sample request report o).status ≡ recommended
      → (sample : PerformanceSample) × (total : Float) × (o ≡ some sample)
        × (sample.stage_p95_ms ≡ some (some total))
        × (fl.le total (frame_budget_ms request.stream_profile) ≡ true)
  unfolding judge_sample judge_total degrade stage_total_ms
  judge_sample_lem request report none h = cc
  judge_sample_lem request report (some sample) h = by_total sample.stage_p95_ms refl h
    where
      by_total :
          (stages : Option (Option Float))
          → sample.stage_p95_ms ≡ stages
          → (let read = record sample { stage_p95_ms = stages } in
              let verdict = judge_total request report (stage_total_ms read) in
              verdict.status ≡ recommended)
          → (found : PerformanceSample) × (total : Float) × (some sample ≡ some found)
            × (found.stage_p95_ms ≡ some (some total))
            × (fl.le total (frame_budget_ms request.stream_profile) ≡ true)
      by_total none e h' = cc
      by_total (some none) e h' = cc
      by_total (some (some total)) e h' = (sample, total, refl, e, ground (arith, h'))

  -- The guards that a recommendation has passed.
  evaluate_on_lem :
      (request : WorkerModelAdmissionRequest) (report : HardwareReport)
      → (evaluate_on request report).status ≡ recommended
      → (has_target_mismatch request report ≡ false)
        × (backend_available (backend_of request) report ≡ true)
        × (open_world_cpu_production_stream request report ≡ false)
        × (let samples = report.observed_performance in
            let found = matching_performance_sample request (backend_of request) samples in
            (judge_sample request report found).status ≡ recommended)
  unfolding evaluate_on refuse
  evaluate_on_lem request report h = elim (Bool-cases (has_target_mismatch request report)) [
    | inl e ↦ ground (arith, e, h)
    | inr same ↦ elim (Bool-cases (backend_available (backend_of request) report)) [
      | inr e ↦ ground (arith, same, e, h)
      | inl there ↦ elim (Bool-cases (open_world_cpu_production_stream request report)) [
        | inl e ↦ ground (arith, same, there, e, h)
        | inr light ↦ (same, there, light, ground (arith, same, there, light, h))
      ]
    ]
  ]

  -- If a worker's model is recommended for a node, then a sample that the node observed with the asked
  -- backend and the asked model, by its id or its name, has a p95 total within the frame budget. The
  -- artifact's profile is the node's where both are given, the backend is available, and an
  -- open-vocabulary model has an accelerator, or a stream of fewer than 720 lines or of fewer than ten
  -- frames a second.
  pub evaluate_worker_model_admission-IsRecommended :
      (request : WorkerModelAdmissionRequest) (report : HardwareReport)
      → (evaluate_worker_model_admission request (some report)).status ≡ recommended
      → IsRecommended request report
  unfolding evaluate_worker_model_admission is_matching_sample
  evaluate_worker_model_admission-IsRecommended request report h =
      let (same, there, light, judged) = evaluate_on_lem request report h in
      let (sample, total, found, measured, within) = judge_sample_lem request report _ judged in
      let (before, after, split, matches) =
        matching_lem request (backend_of request) report.observed_performance sample found in
      record {
        before = before;
        sample = sample;
        after = after;
        observed = split;
        same_backend =
            (option_beq_iff compare_string sample.runtime_backend (some (backend_of request))).0
              (ground (arith, matches));
        same_model = elim (Bool-cases (has_id request.model_id sample.model_id)) [
          | inl e ↦ inl (has_id-eq request.model_id sample.model_id e)
          | inr e ↦
              inr (has_name-eq request.model_name sample.model_name (ground (arith, matches, e)))
        ];
        total = total;
        measured = measured;
        within = within;
        same_target = target_lem request report same;
        available = there;
        bearable = bearable_lem request report light;
      }
