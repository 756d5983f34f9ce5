-- ===== src/Counting.antt =====
-- backend/src/argus/vision/count_events.py, with `point_side` and `line_cross_direction` of
-- backend/src/argus/vision/anpr.py: line crossings, zone entries and exits. Times and the two
-- thresholds are microseconds. `int(round(x))` and the polygon test are interfaces.
pub mod Pruning
pub mod Crossing
pub mod Zones
mod Examples
use vision.Common.{
  ℕ, ◌+◌, ◌≡◌, String, Bool, true, false, not, ◌&&◌, ◌||◌, Option, none, some, List, [], ◌∷◌, ◌++◌,
  Dict, lookup, insert, remove, contains, keep, if◌then◌else◌, str_eq, ltb, ◌==◌, compare_nat,
  compare_string, compare_option, compare_pair, Comparable, ◌>>=◌, ◌↔◌, nat_beq, nat_beq_iff, arith,
}
use vision.Common.Fixed.{ℤ, pos, negsuc}
use vision.Common.Float.{Floats, Float, ◌-◌, ◌*◌, ◌/◌}
use vision.Common.Float
use vision.Detection.{Detection, BoundingBox, Value}

abbrev pub int_beq : ℤ → ℤ → Bool
int_beq (pos n) (pos m) = nat_beq n m
int_beq (pos n) (negsuc m) = false
int_beq (negsuc n) (pos m) = false
int_beq (negsuc n) (negsuc m) = nat_beq n m

pub int_beq_iff : (a b : ℤ) → (int_beq a b ≡ true) ↔ (a ≡ b)
int_beq_iff (pos n) (pos m) = ground (arith, nat_beq_iff n m)
int_beq_iff (pos n) (negsuc m) = ground arith
int_beq_iff (negsuc n) (pos m) = ground arith
int_beq_iff (negsuc n) (negsuc m) = ground (arith, nat_beq_iff n m)

instance abbrev pub compare_int : Comparable ℤ
compare_int = record { same = int_beq; same_iff = int_beq_iff }

pub data CountEventType : Type 0 where
  line_cross zone_enter zone_exit : CountEventType

-- `event_type.value`
abbrev pub value_of : CountEventType → String
value_of line_cross = "line_cross"
value_of zone_enter = "zone_enter"
value_of zone_exit = "zone_exit"

abbrev pub SpatialSignature : Type 0
SpatialSignature = ℤ × ℤ

abbrev pub HitKey : Type 0
HitKey = (String × String) × ((String × Option String) × SpatialSignature)

instance abbrev pub compare_hit : Comparable HitKey
compare_hit = compare_pair

-- Last seen longer ago than the limit.
abbrev pub is_expired : ℕ → ℕ → ℕ → Bool
is_expired limit ts last = ltb (last + limit) ts

module _ ⦃fl : Floats⦄ where
  abbrev pub Point : Type 0
  Point = Float × Float

  -- What a processor gets from outside: `int(round(x))`, and the zones of its polygons, if any.
  pub record Surroundings : Type 0 where
    pub round : Float → ℤ
    pub zone_for_point : Option (Float → Float → Option String)

  pub record LineBoundary : Type 0 where
    pub boundary_id : String
    pub start : Point
    pub stop : Point
    pub class_names : List String

  pub record CountEventRecord : Type 0 where
    pub ts : ℕ
    pub class_name : String
    pub track_id : Option ℕ
    pub event_type : CountEventType
    pub boundary_id : String
    pub direction : Option String
    pub from_zone_id : Option String
    pub to_zone_id : Option String
    pub speed_kph : Option Float
    pub confidence : Float
    pub attributes : Dict String Value
    -- `payload["zone_id"]`
    pub zone_id : Option String

  pub record Processor : Type 0 where
    pub lines : List LineBoundary
    pub last_line_side : Dict (String × ℕ) Float
    pub last_zone_by_track : Dict ℕ (Option String)
    pub track_last_seen : Dict ℕ ℕ
    pub recent_boundary_hits : Dict HitKey ℕ
    pub dedupe : ℕ
    pub stale_state_ttl : ℕ

  -- One entry of the definitions; `points` may be missing, no list, or a list.
  pub data Points : Type 0 where
    missing not_a_list : Points
    point_list : List Point → Points

  pub record BoundaryDefinition : Type 0 where
    pub id : String
    -- The type is "line", in any case.
    pub is_line : Bool
    pub has_polygon : Bool
    pub points : Points
    pub class_names : List String

  unfoldable pub line_of : BoundaryDefinition → Option LineBoundary
  line_of b = elim b.points [
    | point_list (p ∷ q ∷ []) ↦
        if b.has_polygon
        then none
        else some (record { boundary_id = b.id; start = p; stop = q; class_names = b.class_names })
    | _ ↦ none
  ]

  abbrev is_missing : Points → Bool
  is_missing missing = true
  is_missing not_a_list = false
  is_missing (point_list ps) = false

  -- The lines and the zone definitions of a list, or `none` for a `ValueError`.
  unfoldable pub split_definitions :
      List BoundaryDefinition → Option (List LineBoundary × List BoundaryDefinition)
  unfolding line_of
  split_definitions [] = some ([], [])
  split_definitions (b ∷ bs) =
      let rest = split_definitions bs in
      if b.is_line
      then (do line ← line_of b; (lines, zones) ← rest; some (line ∷ lines, zones))
      else (if is_missing b.points && b.has_polygon
          then (do (lines, zones) ← rest; some (lines, b ∷ zones))
          else none)

  unfoldable pub init : List LineBoundary → ℕ → ℕ → Processor
  init lines dedupe stale_state_ttl = record {
    lines = lines;
    last_line_side = [];
    last_zone_by_track = [];
    track_last_seen = [];
    recent_boundary_hits = [];
    dedupe = dedupe;
    stale_state_ttl = stale_state_ttl;
  }

  abbrev pub is_zero : Float → Bool
  is_zero x = fl.le x (fl.decimal 0 0) && fl.le (fl.decimal 0 0) x

  abbrev pub is_positive : Float → Bool
  is_positive x = fl.lt (fl.decimal 0 0) x

  abbrev pub is_negative : Float → Bool
  is_negative x = fl.lt x (fl.decimal 0 0)

  unfoldable pub point_side : Point → Point → Point → Float
  point_side (px, py) (x1, y1) (x2, y2) = (x2 - x1) * (py - y1) - (y2 - y1) * (px - x1)

  unfoldable pub line_cross_direction : Float → Float → String
  line_cross_direction previous side =
      if is_positive previous && is_negative side
      then "positive-to-negative"
      else "negative-to-positive"

  unfoldable pub bottom_center : BoundingBox → Point
  bottom_center (x1, y1, x2, y2) = (Float.◌+◌ x1 x2 / fl.decimal 2 0, y2)

  unfoldable pub spatial_signature : Surroundings → Point → SpatialSignature
  spatial_signature env (x, y) = (env.round (x / fl.decimal 1 0), env.round (y / fl.decimal 1 0))

  -- `zone or fallback`: a missing zone and an empty name fall back.
  abbrev or_zone : Option String → Option String → Option String
  or_zone none b = b
  or_zone (some z) b = if str_eq z "" then b else some z

  unfoldable pub current_zone : Surroundings → Point → Detection → Option String
  current_zone env (x, y) d = elim env.zone_for_point [
    | none ↦ d.zone_id
    | some zone_for_point ↦ or_zone (zone_for_point x y) d.zone_id
  ]

  -- A new hit is stored; one less than the dedupe time after the last hit is recent.
  unfoldable pub is_recent : Processor → HitKey → ℕ → Bool × Processor
  is_recent p key ts =
      let stored = record p { recent_boundary_hits = insert key ts p.recent_boundary_hits } in
      elim (lookup key p.recent_boundary_hits) [
        | none ↦ (false, stored)
        | some previous ↦ if ltb ts (previous + p.dedupe) then (true, p) else (false, stored)
      ]

  unfoldable pub build_count_event :
      ℕ
      → Detection
      → CountEventType
      → String
      → (direction from_zone_id to_zone_id zone_id : Option String) → CountEventRecord
  build_count_event ts d event_type boundary_id direction from_zone_id to_zone_id zone_id = record {
    ts = ts;
    class_name = d.class_name;
    track_id = d.track_id;
    event_type = event_type;
    boundary_id = boundary_id;
    direction = direction;
    from_zone_id = from_zone_id;
    to_zone_id = to_zone_id;
    speed_kph = d.speed_kph;
    confidence = d.confidence;
    attributes = d.attributes;
    zone_id = zone_id;
  }

  -- The event, unless its hit is recent.
  unfoldable pub emit_unless_recent :
      Processor → HitKey → CountEventRecord → List CountEventRecord × Processor
  unfolding is_recent
  emit_unless_recent p key event =
      let (recent, p') = is_recent p key event.ts in (if recent then [] else event ∷ [], p')

  abbrev pub counts_class : List String → String → Bool
  counts_class [] class_name = true
  counts_class (c ∷ cs) class_name = contains (c ∷ cs) class_name

  -- Strictly from one side of the line to the other.
  unfoldable pub has_crossed : Option Float → Float → Bool
  has_crossed none side = false
  has_crossed (some previous) side =
      not (is_zero previous || is_zero side || is_positive (previous * side))

  abbrev pub side_of : Option Float → Float
  side_of none = fl.decimal 0 0
  side_of (some previous) = previous

  -- One boundary of `_process_lines`, for a detection with the track id.
  unfoldable pub process_line :
      Processor
      → ℕ
      → Detection
      → ℕ
      → Point
      → SpatialSignature
      → Option String
      → LineBoundary
      → List CountEventRecord × Processor
  unfolding has_crossed emit_unless_recent
  process_line p ts d track_id center signature zone boundary =
      let side = point_side center boundary.start boundary.stop in
      let key : String × ℕ = (boundary.boundary_id, track_id) in
      let previous = lookup key p.last_line_side in
      let p' = record p { last_line_side = insert key side p.last_line_side } in
      let direction = line_cross_direction (side_of previous) side in
      let hit : HitKey = (
        (boundary.boundary_id, value_of line_cross),
        ((d.class_name, some direction), signature),
      ) in
      let event =
        build_count_event ts d line_cross boundary.boundary_id (some direction) none none zone in
      if not (counts_class boundary.class_names d.class_name)
      then ([], p)
      else (if has_crossed previous side then emit_unless_recent p' hit event else ([], p'))

  unfoldable pub process_lines :
      Processor
      → ℕ
      → Detection
      → ℕ
      → Point
      → SpatialSignature
      → Option String
      → List LineBoundary
      → List CountEventRecord × Processor
  process_lines p ts d track_id center signature place [] = ([], p)
  process_lines p ts d track_id center signature place (boundary ∷ boundaries) =
      let (events, p') = process_line p ts d track_id center signature place boundary in
      let (more, p'') = process_lines p' ts d track_id center signature place boundaries in
      (events ++ more, p'')

  unfoldable pub zone_hit : CountEventType → Detection → String → SpatialSignature → HitKey
  zone_hit event_type d zone signature =
      ((zone, value_of event_type), ((d.class_name, some zone), signature))

  unfoldable pub enter :
      Processor → ℕ → Detection → SpatialSignature → String → List CountEventRecord × Processor
  unfolding zone_hit emit_unless_recent
  enter p ts d signature zone =
      emit_unless_recent p (zone_hit zone_enter d zone signature)
        (build_count_event ts d zone_enter zone none none (some zone) (some zone))

  -- The payload's zone of an exit is `none` if no zone follows, else the zone that was left.
  unfoldable pub leave :
      Processor
      → ℕ
      → Detection
      → SpatialSignature
      → String
      → Option String
      → List CountEventRecord × Processor
  unfolding zone_hit emit_unless_recent
  leave p ts d signature zone payload_zone =
      emit_unless_recent p (zone_hit zone_exit d zone signature)
        (build_count_event ts d zone_exit zone none (some zone) none payload_zone)

  -- The zones before and now, the state being updated.
  unfoldable pub change_zone :
      Processor
      → ℕ
      → Detection
      → SpatialSignature
      → Option String
      → Option String
      → List CountEventRecord × Processor
  unfolding enter leave
  change_zone p ts d signature none none = ([], p)
  change_zone p ts d signature none (some now) = enter p ts d signature now
  change_zone p ts d signature (some before) none = leave p ts d signature before none
  change_zone p ts d signature (some before) (some now) =
      if str_eq before now
      then ([], p)
      else (let (left, p') = leave p ts d signature before (some before) in
          let (entered, p'') = enter p' ts d signature now in (left ++ entered, p''))

  abbrev pub zone_before : Option (Option String) → Option String
  zone_before none = none
  zone_before (some z) = z

  unfoldable pub process_zones :
      Processor
      → ℕ
      → Detection
      → ℕ
      → Option String
      → SpatialSignature
      → List CountEventRecord × Processor
  process_zones p ts d track_id zone signature =
      change_zone (record p { last_zone_by_track = insert track_id zone p.last_zone_by_track }) ts d
        signature (zone_before (lookup track_id p.last_zone_by_track)) zone

  unfoldable pub forget_track : Processor → ℕ → Processor
  forget_track p track_id = record p {
    track_last_seen = remove track_id p.track_last_seen;
    last_zone_by_track = remove track_id p.last_zone_by_track;
    last_line_side = keep (λ e. not (e.0.1 == track_id)) p.last_line_side;
  }

  unfoldable pub forget_tracks : Processor → Dict ℕ ℕ → Processor
  forget_tracks p [] = p
  forget_tracks p ((track_id, last) ∷ rest) = forget_tracks (forget_track p track_id) rest

  unfoldable pub remove_hits : Dict HitKey ℕ → Dict HitKey ℕ → Dict HitKey ℕ
  remove_hits [] hits = hits
  remove_hits ((key, previous) ∷ rest) hits = remove_hits rest (remove key hits)

  unfoldable pub prune_expired_state : Processor → ℕ → Processor
  prune_expired_state p ts =
      let p' =
        forget_tracks p (keep (λ e. is_expired p.stale_state_ttl ts e.1) p.track_last_seen) in
      let expired = keep (λ e. is_expired p.dedupe ts e.1) p'.recent_boundary_hits in
      record p' { recent_boundary_hits = remove_hits expired p'.recent_boundary_hits }

  -- One detection of `process` that has a track id.
  unfoldable pub process_detection :
      Surroundings → Processor → ℕ → Detection → ℕ → List CountEventRecord × Processor
  process_detection env p ts d track_id =
      let seen = record p { track_last_seen = insert track_id ts p.track_last_seen } in
      let center = bottom_center d.bbox in
      let zone = current_zone env center d in
      let signature = spatial_signature env center in
      let (crossed, p') = process_lines seen ts d track_id center signature zone seen.lines in
      let (changed, p'') = process_zones p' ts d track_id zone signature in
      (crossed ++ changed, p'')

  -- One detection of `process`.
  unfoldable pub process_tracked :
      Surroundings → Processor → ℕ → Detection → Option ℕ → List CountEventRecord × Processor
  process_tracked env p ts d none = ([], p)
  process_tracked env p ts d (some track_id) = process_detection env p ts d track_id

  unfoldable pub process_each :
      Surroundings → Processor → ℕ → List Detection → List CountEventRecord × Processor
  process_each env p ts [] = ([], p)
  process_each env p ts (d ∷ ds) =
      let (events, p') = process_tracked env p ts d d.track_id in
      let (more, p'') = process_each env p' ts ds in (events ++ more, p'')

  unfoldable pub process :
      Surroundings → Processor → ℕ → List Detection → List CountEventRecord × Processor
  process env p ts ds = process_each env (prune_expired_state p ts) ts ds
