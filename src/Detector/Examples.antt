-- ===== src/Detector/Examples.antt =====
-- The theorem of the suppression at a concrete input, over signed thousandths.
use vision.Common.{ℕ, ◌+◌, ◌*◌, none, List, [], ◌∷◌, Ensures}
use vision.Common.Fixed.{pos, fixed}
use vision.Detection.{Detection}
use vision.Detector.{apply_nms}
use vision.Detector.Kept.{IsSuppressed, apply_nms-IsSuppressed}

abbrev person_box : ℕ → ℕ → Detection
person_box x confidence = record {
  class_name = "person";
  confidence = pos confidence;
  bbox = (pos (x * 1000), pos 0, pos (x * 1000 + 50000), pos 100000);
  class_id = none;
  track_id = none;
  attributes = [];
  zone_id = none;
  speed_kph = none;
  direction_deg = none;
}

-- Two boxes of one person, and a car at the same place.
abbrev overlapping : List Detection
overlapping =
    person_box 0 700 ∷ person_box 1 900 ∷ record (person_box 0 800) { class_name = "car" } ∷ []

apply_nms-IsSuppressed_example :
    Ensures (IsSuppressed (pos 450) overlapping) (apply_nms overlapping (pos 450))
apply_nms-IsSuppressed_example = apply_nms-IsSuppressed (pos 450) overlapping
