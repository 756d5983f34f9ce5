-- ===== src/Quality/Gate.antt =====
-- Which detections the gate lets through.
use vision.Common.{
  ℕ, ◌≡◌, refl, Bool, true, false, Option, List, [], ◌∷◌, keep, any, map, All, ◌&&◌, compare_string,
  arith,
}
use vision.Common.Float.{Floats}
use vision.Detection.{Detection}
use vision.Tracking.Memory.{LifecycleTrack}
use vision.Tracking.Geometry.{clamp_bbox}
use vision.Quality.{
  CandidateQualityConfig, CandidateDecision, new_track_threshold, is_near, is_near_existing_track,
  is_duplicate_fragment, is_same_class, decide, filter_detections, existing_track_continuation,
  duplicate_fragment, new_track_high_confidence, new_track_low_confidence,
}

module _ ⦃fl : Floats⦄ (c : CandidateQualityConfig) where
  abbrev pub is_confident : Detection → Bool
  is_confident d = fl.le (new_track_threshold c d.class_name) d.confidence

  -- Some live track of its class is near the detection.
  abbrev pub continues : List LifecycleTrack → Option (List ℕ) → Detection → Bool
  continues tracks frame_shape d =
      any (λ t. is_same_class d t && is_near c (clamp_bbox d.bbox frame_shape) frame_shape t) tracks

  -- The detection is a part of a live track of its class.
  abbrev pub is_part : List LifecycleTrack → Option (List ℕ) → Detection → Bool
  is_part tracks frame_shape d =
      is_duplicate_fragment c d (keep (is_same_class d) tracks) frame_shape

  -- A detection under the threshold of a new track, with the confidence of a continuation, near a track.
  pub record IsContinuation (tracks : List LifecycleTrack) (frame_shape : Option (List ℕ))
      (d : Detection) : Type 0 where
    pub low : fl.lt d.confidence (new_track_threshold c d.class_name) ≡ true
    pub enough : fl.le c.continuation_min_confidence d.confidence ≡ true
    pub near : continues tracks frame_shape d ≡ true

  -- A part of a track, while such parts are suppressed.
  abbrev pub is_suppressed : List LifecycleTrack → Option (List ℕ) → Detection → Bool
  is_suppressed tracks frame_shape d =
      c.duplicate_suppression_enabled && is_part tracks frame_shape d

  -- A decision with its reason: a continuation is let through, whatever it is a part of; of the
  -- others a suppressed part is held back, and of the rest those that are not confident.
  abbrev pub IsJustified : List LifecycleTrack → Option (List ℕ) → CandidateDecision → Type 0
  IsJustified tracks frame_shape decision =
      let d = decision.detection in
      elim decision.reason [
        | existing_track_continuation ↦
            (decision.accepted ≡ true) × IsContinuation tracks frame_shape d
        | duplicate_fragment ↦
            (decision.accepted ≡ false)
            × ¬ (IsContinuation tracks frame_shape d)
            × (is_suppressed tracks frame_shape d ≡ true)
        | new_track_high_confidence ↦
            (decision.accepted ≡ true)
            × ¬ (IsContinuation tracks frame_shape d)
            × (is_suppressed tracks frame_shape d ≡ false)
            × (is_confident d ≡ true)
        | new_track_low_confidence ↦
            (decision.accepted ≡ false)
            × ¬ (IsContinuation tracks frame_shape d)
            × (is_suppressed tracks frame_shape d ≡ false)
            × (is_confident d ≡ false)
      ]

  -- What the gate answers: a decision for each detection, of which those accepted are let through, and
  -- each of which is justified.
  pub record IsGated (detections : List Detection) (tracks : List LifecycleTrack)
      (frame_shape : Option (List ℕ)) (answer : List Detection × List CandidateDecision)
      : Type 0 where
    pub decided : map (λ x. x.detection) answer.1 ≡ detections
    pub filtered : answer.0 ≡ map (λ x. x.detection) (keep (λ x. x.accepted) answer.1)
    pub justified : All (IsJustified tracks frame_shape) answer.1

  -- Without tracks, exactly the confident detections are let through.
  pub filter_detections-cold :
      (detections : List Detection) (frame_shape : Option (List ℕ))
      → (filter_detections c detections [] frame_shape).0 ≡ keep is_confident detections
  unfolding filter_detections decide is_near_existing_track is_duplicate_fragment any keep
  filter_detections-cold [] frame_shape = refl
  filter_detections-cold (d ∷ ds) frame_shape =
      ground (arith, filter_detections-cold ds frame_shape)
