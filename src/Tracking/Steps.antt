-- ===== src/Tracking/Steps.antt =====
-- The operations of `TrackLifecycleManager` that change one track. `none` is a `KeyError`.
use vision.Common.{
  ℕ, ◌>>=◌, ◌+◌, ◌||◌, Option, none, some, List, lookup, insert, remove, if◌then◌else◌, leb, ◌==◌,
  compare_nat, compare_option,
}
use vision.Common.Float.{Floats, zero_float}
use vision.Detection.{BoundingBox, Detection}
use vision.Tracking.Geometry.{clamp_bbox}
use vision.Tracking.Memory.{
  TrackState, tentative, active, coasting, lost, is_published, Manager, TrackMemory,
  TrackLifecycleConfig, LifecycleTrack,
}

module _ ⦃fl : Floats⦄ where
  -- `detection.with_updates(track_id=..., bbox=...)`
  abbrev pub retrack : Detection → ℕ → Detection
  retrack d stable_id = record d { track_id = some stable_id }

  unfoldable pub forget_source_mapping : Manager → ℕ → ℕ → Manager
  forget_source_mapping m source_track_id stable_id =
      if lookup source_track_id m.stable_id_by_source == some stable_id
      then record m { stable_id_by_source = remove source_track_id m.stable_id_by_source }
      else m

  -- The tail of `_forget_track`, on what `pop` returned.
  unfoldable pub forget_mapping_of : Manager → ℕ → Option ℕ → Manager
  unfolding forget_source_mapping
  forget_mapping_of m stable_id none = m
  forget_mapping_of m stable_id (some source) = forget_source_mapping m source stable_id

  unfoldable pub forget_track : Manager → ℕ → Manager
  unfolding forget_mapping_of
  forget_track m stable_id =
      let popped = record m { tracks = remove stable_id m.tracks } in
      elim (lookup stable_id m.tracks) [
        | none ↦ popped
        | some memory ↦ forget_mapping_of popped stable_id memory.source_track_id
      ]

  -- `self._stable_id_by_source[source] = stable_id`, when there is a source id.
  unfoldable pub map_source : Manager → Option ℕ → ℕ → Manager
  map_source m none stable_id = m
  map_source m (some source) stable_id = record m {
    stable_id_by_source = insert source stable_id m.stable_id_by_source;
  }

  unfoldable pub new_memory : ℕ → Detection → ℕ → TrackMemory
  new_memory stable_id detection ts = record {
    stable_track_id = stable_id;
    class_name = detection.class_name;
    source_track_id = detection.track_id;
    state = tentative;
    detection = retrack detection stable_id;
    first_seen_ts = ts;
    last_seen_ts = ts;
    updated_ts = ts;
    hits = 0;
    missing_updates = 0;
    velocity = (zero_float, zero_float, zero_float, zero_float);
  }

  unfoldable pub create_track : Manager → Detection → ℕ → ℕ × Manager
  unfolding map_source new_memory
  create_track m detection ts =
      let stable_id = m.next_stable_track_id in
      let added = record m {
        next_stable_track_id = stable_id + 1;
        tracks = insert stable_id (new_memory stable_id detection ts) m.tracks;
      } in
      (stable_id, map_source added detection.track_id stable_id)

  unfoldable pub moved_by : BoundingBox → BoundingBox → BoundingBox
  moved_by previous box = (
    fl.sub box.0 previous.0,
    fl.sub box.1 previous.1,
    fl.sub box.2 previous.2,
    fl.sub box.3 previous.3,
  )

  -- The state that a detection leads to.
  unfoldable pub state_after : TrackLifecycleConfig → TrackMemory → Detection → TrackState
  state_after c memory detection =
      if is_published memory.state
        || leb c.tentative_hits (memory.hits + 1)
        || fl.le c.instant_activation_confidence detection.confidence
      then active
      else tentative

  -- The memory that `_apply_detection` leaves behind.
  unfoldable pub hit_memory :
      TrackLifecycleConfig → ℕ → TrackMemory → Detection → ℕ → Option (List ℕ) → TrackMemory
  unfolding moved_by state_after
  hit_memory c stable_id memory detection ts frame_shape =
      let box = clamp_bbox detection.bbox frame_shape in
      record memory {
        velocity = moved_by memory.detection.bbox box;
        hits = memory.hits + 1;
        source_track_id = detection.track_id;
        class_name = detection.class_name;
        state = state_after c memory detection;
        detection = record detection { track_id = some stable_id; bbox = box };
        last_seen_ts = ts;
        updated_ts = ts;
        missing_updates = 0;
      }

  -- `if old is not None and old != new: self._forget_source_mapping(old, stable_id)`
  unfoldable pub unmap_old_source : Manager → Option ℕ → Option ℕ → ℕ → Manager
  unfolding forget_source_mapping
  unmap_old_source m none new stable_id = m
  unmap_old_source m (some old) new stable_id =
      if some old == new then m else forget_source_mapping m old stable_id

  -- `_apply_detection`, once the memory is looked up.
  unfoldable pub hit_track : Manager → ℕ → TrackMemory → Detection → ℕ → Option (List ℕ) → Manager
  unfolding unmap_old_source map_source hit_memory
  hit_track m stable_id memory detection ts frame_shape =
      let unmapped = unmap_old_source m memory.source_track_id detection.track_id stable_id in
      let mapped = map_source unmapped detection.track_id stable_id in
      record mapped {
        tracks =
            insert stable_id (hit_memory m.config stable_id memory detection ts frame_shape)
              mapped.tracks;
      }

  unfoldable pub apply_detection : Manager → ℕ → Detection → ℕ → Option (List ℕ) → Option Manager
  unfolding hit_track
  apply_detection m stable_id detection ts frame_shape = do
    memory ← lookup stable_id m.tracks
    some (hit_track m stable_id memory detection ts frame_shape)

  -- `if selected.source_track_id is not None: self._stable_id_by_source.pop(...)`
  unfoldable pub pop_source : Manager → Option ℕ → Manager
  pop_source m none = m
  pop_source m (some source) = record m {
    stable_id_by_source = remove source m.stable_id_by_source;
  }

  unfoldable pub adopted_memory : TrackMemory → TrackMemory → TrackMemory
  adopted_memory selected duplicate = record selected {
    source_track_id = duplicate.source_track_id;
    detection = retrack duplicate.detection selected.stable_track_id;
    velocity = duplicate.velocity;
    last_seen_ts = duplicate.last_seen_ts;
    updated_ts = duplicate.updated_ts;
    missing_updates = 0;
    state = active;
  }

  -- `selected` is the object under the key `selected_id`.
  unfoldable pub replace_with_duplicate : Manager → ℕ → TrackMemory → TrackMemory → Manager
  unfolding pop_source map_source adopted_memory
  replace_with_duplicate m selected_id selected duplicate =
      let popped = pop_source m selected.source_track_id in
      let mapped = map_source popped duplicate.source_track_id selected.stable_track_id in
      record mapped {
        tracks = insert selected_id (adopted_memory selected duplicate) mapped.tracks;
      }

  -- The memory that `_coast_track` leaves behind.
  unfoldable pub coast_memory :
      TrackLifecycleConfig → TrackMemory → ℕ → Option (List ℕ) → TrackMemory
  coast_memory c memory ts frame_shape =
      let missing = memory.missing_updates + 1 in
      let damping = fl.power c.velocity_damping missing in
      let box = memory.detection.bbox in
      let v = memory.velocity in
      let predicted : BoundingBox = (
        fl.add box.0 (fl.mul v.0 damping),
        fl.add box.1 (fl.mul v.1 damping),
        fl.add box.2 (fl.mul v.2 damping),
        fl.add box.3 (fl.mul v.3 damping),
      ) in
      record memory {
        state = coasting;
        updated_ts = ts;
        missing_updates = missing;
        detection = record (retrack memory.detection memory.stable_track_id) {
          bbox = clamp_bbox predicted frame_shape;
        };
      }

  -- A snapshot of a track, under a given state and age.
  unfoldable pub snapshot_of : TrackMemory → TrackState → ℕ → LifecycleTrack
  snapshot_of memory state age_ms = record {
    stable_track_id = memory.stable_track_id;
    source_track_id = memory.source_track_id;
    state = state;
    last_seen_age_ms = age_ms;
    detection = retrack memory.detection memory.stable_track_id;
  }

  -- The state that `_to_lifecycle_track` publishes.
  unfoldable pub published_state : TrackState → TrackState
  published_state coasting = coasting
  published_state tentative = active
  published_state active = active
  published_state lost = active

  unfoldable pub to_lifecycle_track : TrackMemory → ℕ → LifecycleTrack
  unfolding snapshot_of published_state
  to_lifecycle_track memory age_ms = snapshot_of memory (published_state memory.state) age_ms
