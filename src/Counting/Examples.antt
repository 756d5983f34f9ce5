-- ===== src/Counting/Examples.antt =====
-- The theorems of the event counter at concrete inputs, over signed thousandths.
use vision.Common.{
  ℕ, insert, arith, ◌≡◌, refl, none, some, [], ◌∷◌, All, map, lookup, compare_nat, compare_string,
  compare_pair,
}
use vision.Common.Fixed.{pos, fixed, product, multiply}
use vision.Detection.{Detection}
use vision.Counting.{
  Processor, LineBoundary, HitKey, compare_hit, value_of, line_cross, is_recent, emit_unless_recent,
  line_cross_direction, build_count_event, prune_expired_state, process_line, process_zones,
  point_side, has_crossed, zone_enter, zone_exit,
}
use vision.Counting.Pruning.{prune_expired_state-is_recent}
use vision.Counting.Crossing.{LineCall, run_line, run_lines, process_line-repeated}
use vision.Counting.Zones.{IsChange, kind_of, process_zones-IsChange}

abbrev car : Detection
car = record {
  class_name = "car";
  confidence = pos 900;
  bbox = (pos 10000, pos 0, pos 30000, pos 50000);
  class_id = none;
  track_id = some 7;
  attributes = [];
  zone_id = some "lane";
  speed_kph = none;
  direction_deg = none;
}

abbrev entry : LineBoundary
entry = record {
  boundary_id = "entry";
  start = (pos 10000, pos 0);
  stop = (pos 10000, pos 90000);
  class_names = [];
}

abbrev old_hit : HitKey
old_hit = (("entry", value_of line_cross), (("car", some "positive-to-negative"), (pos 20, pos 50)))

-- The car was on the positive side of the line, in the yard.
abbrev counter : Processor
counter = record {
  lines = entry ∷ [];
  last_line_side = (("entry", 7), pos 5000) ∷ [];
  last_zone_by_track = (7, some "yard") ∷ [];
  track_last_seen = (7, 1000000) ∷ [];
  recent_boundary_hits = (old_hit, 1000000) ∷ [];
  dedupe = 1500000;
  stale_state_ttl = 5000000;
}

prune_expired_state-is_recent_example :
    (is_recent (prune_expired_state counter 3000000) old_hit 3000000).0
    ≡ (is_recent counter old_hit 3000000).0
unfolding lookup
prune_expired_state-is_recent_example =
    prune_expired_state-is_recent counter old_hit 3000000 (refl, tt)

-- The car crosses the line, goes back, and crosses it again within the dedupe time.
abbrev call_at : ℕ → ℕ → LineCall
call_at ts x = record {
  ts = ts;
  detection = car;
  track_id = 7;
  center = (pos x, pos 50000);
  signature = (pos 20, pos 50);
  zone = none;
  boundary = entry;
}

process_line-repeated_example :
    (run_line
      (run_lines (run_line counter (call_at 3000000 20000)).1 (call_at 3100000 5000 ∷ []))
      (call_at 3200000 20000)).0
    ≡ []
unfolding lookup process_line has_crossed emit_unless_recent is_recent point_side
    line_cross_direction build_count_event insert product multiply
process_line-repeated_example =
    process_line-repeated counter (call_at 3000000 20000) (call_at 3100000 5000 ∷ [])
      (call_at 3200000 20000) refl (omega arith, tt) refl (omega arith)

process_zones-IsChange_example :
    let (events, p') = process_zones counter 3000000 car 7 (some "lane") (pos 20, pos 50) in
    (map kind_of events ≡ (zone_exit, "yard") ∷ (zone_enter, "lane") ∷ [])
    × All (IsChange 3000000 car (some "yard") (some "lane")) events
    × (lookup 7 p'.last_zone_by_track ≡ some (some "lane"))
unfolding lookup
process_zones-IsChange_example =
    process_zones-IsChange counter 3000000 car 7 (some "lane") (pos 20, pos 50)
