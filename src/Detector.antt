-- ===== src/Detector.antt =====
-- Non-maximum suppression: `_apply_nms` and `_bbox_iou` of backend/src/argus/vision/detector.py.
pub mod Loop
pub mod Classes
pub mod Kept
mod Examples
use vision.Common.{
  ℕ, zero, suc, String, Bool, Option, none, some, List, [], ◌∷◌, ◌++◌, map, length, keep, contains,
  sorted, ◌==◌, if◌then◌else◌, compare_string,
}
use vision.Common.Float.{Floats, Float, ◌+◌, ◌-◌, ◌*◌, ◌/◌, zero_float, min_float, max_float}
use Prim.Native.String
use text.Mathlib.Text.{is_lt}
use vision.Detection.{BoundingBox, Detection}

abbrev pub text_before : String → String → Bool
text_before a b = is_lt (String.compare a b)

-- The set of the texts.
unfoldable pub distinct : List String → List String
distinct [] = []
distinct (name ∷ names) =
    let rest = distinct names in if contains rest name then rest else name ∷ rest

abbrev pub prepend_some {ℓ} : {A : Type ℓ} → A → Option (List A) → Option (List A)
prepend_some x none = none
prepend_some x (some xs) = some (x ∷ xs)

abbrev pub append_some {ℓ} : {A : Type ℓ} → Option (List A) → Option (List A) → Option (List A)
append_some none later = none
append_some (some xs) none = none
append_some (some xs) (some ys) = some (xs ++ ys)

module _ ⦃fl : Floats⦄ where
  unfoldable pub bbox_iou : BoundingBox → BoundingBox → Float
  bbox_iou left right =
      let width = max_float zero_float (min_float left.2 right.2 - max_float left.0 right.0) in
      let height = max_float zero_float (min_float left.3 right.3 - max_float left.1 right.1) in
      let intersection = width * height in
      let left_area =
        max_float zero_float (left.2 - left.0) * max_float zero_float (left.3 - left.1) in
      let right_area =
        max_float zero_float (right.2 - right.0) * max_float zero_float (right.3 - right.1) in
      let union = left_area + right_area - intersection in
      if fl.le union zero_float then zero_float else intersection / union

  abbrev pub is_apart : Float → Detection → Detection → Bool
  is_apart iou_threshold current candidate =
      fl.lt (bbox_iou current.bbox candidate.bbox) iou_threshold

  -- The `while` loop over the detections of a class; `none` is a lack of fuel.
  unfoldable pub suppress_from : ℕ → Float → List Detection → Option (List Detection)
  suppress_from fuel iou_threshold [] = some []
  suppress_from zero iou_threshold (current ∷ rest) = none
  suppress_from (suc fuel) iou_threshold (current ∷ rest) =
      prepend_some current
        (suppress_from fuel iou_threshold (keep (is_apart iou_threshold current) rest))

  -- `key=confidence, reverse=True`, which is stable.
  abbrev pub is_surer : Detection → Detection → Bool
  is_surer a b = fl.lt b.confidence a.confidence

  abbrev pub of_class : List Detection → String → List Detection
  of_class detections name = sorted is_surer (keep (λ d. d.class_name == name) detections)

  unfoldable pub suppress_classes : Float → List Detection → List String → Option (List Detection)
  unfolding suppress_from
  suppress_classes iou_threshold detections [] = some []
  suppress_classes iou_threshold detections (name ∷ names) =
      let own = of_class detections name in
      let later = suppress_classes iou_threshold detections names in
      append_some (suppress_from (length own) iou_threshold own) later

  unfoldable pub apply_nms : List Detection → Float → Option (List Detection)
  unfolding distinct suppress_classes
  apply_nms detections iou_threshold =
      suppress_classes iou_threshold detections
        (sorted text_before (distinct (map (λ d. d.class_name) detections)))
