-- ===== src/Quality.antt =====
-- backend/src/argus/vision/candidate_quality.py: the gate that detections pass before they are
-- tracked. `_center_distance_ratio` and `_clamp_bbox` are the functions of track_lifecycle.py again,
-- and are those of Tracking.Geometry.
pub mod Gate
mod Examples
use vision.Common.{
  ℕ, String, Bool, true, false, not, Option, none, some, List, [], ◌∷◌, Dict, lookup, insert,
  contains, member, keep, any, map, ◌==◌, ◌&&◌, ◌||◌, if◌then◌else◌, compare_string,
}
use vision.Common.Float.{Floats, Float, ◌+◌, ◌-◌, ◌*◌, ◌/◌, zero_float, min_float, max_float}
use vision.Detection.{BoundingBox, Detection}
use vision.Tracking.Memory.{LifecycleTrack, TrackState, is_candidate}
use vision.Tracking.Geometry.{center_distance_ratio, clamp_bbox}

pub data Reason : Type 0 where
  existing_track_continuation duplicate_fragment : Reason
  new_track_high_confidence new_track_low_confidence : Reason

module _ ⦃fl : Floats⦄ where
  pub record CandidateQualityConfig : Type 0 where
    pub new_track_min_confidence : Dict String Float
    pub continuation_min_confidence : Float
    pub near_track_iou_threshold : Float
    pub near_track_center_distance_ratio : Float
    pub fragment_iou_or_ios_threshold : Float
    pub duplicate_suppression_enabled : Bool

  unfoldable pub default_quality : CandidateQualityConfig
  default_quality = record {
    new_track_min_confidence =
        ("person", fl.decimal 45 2)
        ∷ ("car", fl.decimal 35 2)
        ∷ ("truck", fl.decimal 35 2)
        ∷ ("bus", fl.decimal 35 2)
        ∷ ("forklift", fl.decimal 35 2)
        ∷ ("default", fl.decimal 40 2)
        ∷ [];
    continuation_min_confidence = fl.decimal 10 2;
    near_track_iou_threshold = fl.decimal 10 2;
    near_track_center_distance_ratio = fl.decimal 65 2;
    fragment_iou_or_ios_threshold = fl.decimal 55 2;
    duplicate_suppression_enabled = true;
  }

  pub record CandidateDecision : Type 0 where
    pub detection : Detection
    pub accepted : Bool
    pub reason : Reason

  -- A profile's thresholds, if it has a mapping; of an item, the key if it is a text, and the value if
  -- it is a number.
  pub record ProfileQuality : Type 0 where
    pub thresholds : Option (List (Option String × Option Float))
    pub suppression : Option Bool

  unfoldable pub set_thresholds :
      Dict String Float → List (Option String × Option Float) → Dict String Float
  set_thresholds thresholds [] = thresholds
  set_thresholds thresholds ((some class_name, some value) ∷ items) =
      set_thresholds (insert class_name value thresholds) items
  set_thresholds thresholds ((none, value) ∷ items) = set_thresholds thresholds items
  set_thresholds thresholds ((some class_name, none) ∷ items) = set_thresholds thresholds items

  abbrev or_enabled : Option Bool → Bool
  or_enabled none = true
  or_enabled (some enabled) = enabled

  unfoldable pub from_profile_candidate_quality : ProfileQuality → CandidateQualityConfig
  unfolding default_quality set_thresholds
  from_profile_candidate_quality profile = record default_quality {
    new_track_min_confidence = elim profile.thresholds [
      | none ↦ default_quality.new_track_min_confidence
      | some items ↦ set_thresholds default_quality.new_track_min_confidence items
    ];
    duplicate_suppression_enabled = or_enabled profile.suppression;
  }

  unfoldable pub intersection_area : BoundingBox → BoundingBox → Float
  intersection_area left right =
      let width = max_float zero_float (min_float left.2 right.2 - max_float left.0 right.0) in
      let height = max_float zero_float (min_float left.3 right.3 - max_float left.1 right.1) in
      width * height

  unfoldable pub box_area : BoundingBox → Float
  box_area box = max_float zero_float (box.2 - box.0) * max_float zero_float (box.3 - box.1)

  unfoldable pub candidate_iou : BoundingBox → BoundingBox → Float
  unfolding intersection_area box_area
  candidate_iou left right =
      let intersection = intersection_area left right in
      if fl.le intersection zero_float
      then zero_float
      else (let union = box_area left + box_area right - intersection in
          if fl.lt zero_float union then intersection / union else zero_float)

  abbrev pub vehicle_classes : List String
  vehicle_classes = "car" ∷ "truck" ∷ "bus" ∷ "forklift" ∷ []

  abbrev or_float : Option Float → Float → Float
  or_float none default = default
  or_float (some value) default = value

  unfoldable pub new_track_threshold : CandidateQualityConfig → String → Float
  new_track_threshold c class_name =
      let thresholds = c.new_track_min_confidence in
      let default = or_float (lookup "default" thresholds) (fl.decimal 40 2) in
      if contains vehicle_classes class_name
        && not (member class_name thresholds)
        && member "vehicle" thresholds
      then or_float (lookup "vehicle" thresholds) default
      else or_float (lookup class_name thresholds) default

  unfoldable pub is_near :
      CandidateQualityConfig → BoundingBox → Option (List ℕ) → LifecycleTrack → Bool
  unfolding candidate_iou
  is_near c box frame_shape track =
      let existing = clamp_bbox track.detection.bbox frame_shape in
      fl.le c.near_track_iou_threshold (candidate_iou box existing)
      || fl.le (center_distance_ratio box existing) c.near_track_center_distance_ratio

  unfoldable pub is_near_existing_track :
      CandidateQualityConfig → Detection → List LifecycleTrack → Option (List ℕ) → Bool
  unfolding is_near
  is_near_existing_track c detection tracks frame_shape =
      any (is_near c (clamp_bbox detection.bbox frame_shape) frame_shape) tracks

  -- One turn of the loop, for a box with a positive area.
  unfoldable pub is_fragment_of :
      CandidateQualityConfig → BoundingBox → Option (List ℕ) → LifecycleTrack → Bool
  unfolding intersection_area box_area
  is_fragment_of c box frame_shape track =
      let existing = clamp_bbox track.detection.bbox frame_shape in
      let area = box_area box in
      let existing_area = box_area existing in
      let smaller = min_float area existing_area in
      let intersection = intersection_area box existing in
      if fl.le existing_area zero_float
      then false
      else if fl.lt (fl.decimal 80 2) (smaller / max_float area existing_area)
      then false
      else if fl.le intersection zero_float
      then false
      else fl.le c.fragment_iou_or_ios_threshold
          (intersection / (area + existing_area - intersection))
        || fl.le c.fragment_iou_or_ios_threshold (intersection / smaller)

  unfoldable pub is_duplicate_fragment :
      CandidateQualityConfig → Detection → List LifecycleTrack → Option (List ℕ) → Bool
  unfolding is_fragment_of box_area
  is_duplicate_fragment c detection tracks frame_shape =
      let box = clamp_bbox detection.bbox frame_shape in
      if fl.le (box_area box) zero_float
      then false
      else any (is_fragment_of c box frame_shape) tracks

  abbrev pub is_same_class : Detection → LifecycleTrack → Bool
  is_same_class detection track =
      is_candidate track.state && track.detection.class_name == detection.class_name

  unfoldable pub decide :
      CandidateQualityConfig → Detection → List LifecycleTrack → Option (List ℕ) → CandidateDecision
  unfolding new_track_threshold is_near_existing_track is_duplicate_fragment
  decide c detection existing_tracks frame_shape =
      let tracks = keep (is_same_class detection) existing_tracks in
      let threshold = new_track_threshold c detection.class_name in
      let decision : Bool → Reason → CandidateDecision =
        λ accepted reason. record { detection = detection; accepted = accepted; reason = reason } in
      if fl.lt detection.confidence threshold
        && fl.le c.continuation_min_confidence detection.confidence
        && is_near_existing_track c detection tracks frame_shape
      then decision true existing_track_continuation
      else if c.duplicate_suppression_enabled
          && is_duplicate_fragment c detection tracks frame_shape
      then decision false duplicate_fragment
      else if fl.le threshold detection.confidence
      then decision true new_track_high_confidence
      else decision false new_track_low_confidence

  unfoldable pub filter_detections :
      CandidateQualityConfig
      → List Detection
      → List LifecycleTrack
      → Option (List ℕ)
      → List Detection × List CandidateDecision
  unfolding decide
  filter_detections c [] existing_tracks frame_shape = ([], [])
  filter_detections c (detection ∷ detections) existing_tracks frame_shape =
      let decision = decide c detection existing_tracks frame_shape in
      let (filtered, decisions) = filter_detections c detections existing_tracks frame_shape in
      (if decision.accepted then detection ∷ filtered else filtered, decision ∷ decisions)
