-- ===== src/Quality/Examples.antt =====
-- The theorems of the gate at concrete inputs, over signed thousandths.
use vision.Common.{ℕ, ◌+◌, ◌*◌, none, List, [], ◌∷◌}
use vision.Common.Fixed.{pos, fixed}
use vision.Detection.{Detection}
use vision.Tracking.Memory.{LifecycleTrack, active}

abbrev person : ℕ → ℕ → Detection
person x confidence = record {
  class_name = "person";
  confidence = pos confidence;
  bbox = (pos (x * 1000), pos 0, pos (x * 1000 + 50000), pos 100000);
  class_id = none;
  track_id = none;
  attributes = [];
  zone_id = none;
  speed_kph = none;
  direction_deg = none;
}

abbrev known : LifecycleTrack
known = record {
  stable_track_id = 1;
  source_track_id = none;
  state = active;
  last_seen_age_ms = 0;
  detection = person 0 900;
}

-- A faint detection beside the track, and a faint one far from it.
abbrev faint : List Detection
faint = person 2 200 ∷ person 900 200 ∷ []
