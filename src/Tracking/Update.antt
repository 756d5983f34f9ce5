-- ===== src/Tracking/Update.antt =====
-- `TrackLifecycleManager.update` and what it composes: the matching of detections to tracks, the
-- suppression of duplicates, and the ageing of the tracks that no detection hit. The set
-- `matched_stable_ids` and the list `seen_this_frame` hold the same ids, so one list stands for both.
-- `none` is a `KeyError`.
use vision.Common.{
  ℕ, ◌>>=◌, Bool, not, ◌&&◌, ◌||◌, Option, none, some, List, [], ◌∷◌, ◌++◌, Dict, lookup, insert,
  contains, keep, map, sorted, if◌then◌else◌, ltb, leb, nat_beq, str_eq, compare_nat, is_some,
}
use vision.Common.Float.{Floats, Float, zero_float}
use vision.Detection.{BoundingBox, Detection}
use vision.Tracking.Geometry.{iou, center_distance_ratio, clamp_bbox}
use vision.Tracking.Memory.{
  is_published, is_candidate, is_active, Manager, TrackMemory, TrackLifecycleConfig, LifecycleTrack,
  elapsed_ms,
}
use vision.Tracking.Steps.{
  forget_track, create_track, apply_detection, replace_with_duplicate, coast_memory, snapshot_of,
  to_lifecycle_track,
}

module _ ⦃fl : Floats⦄ where
  unfoldable pub init : TrackLifecycleConfig → Manager
  init c = record {
    config = c;
    next_stable_track_id = 1;
    tracks = [];
    stable_id_by_source = [];
    last_visible_tracks = [];
    last_candidate_context_tracks = [];
  }

  unfoldable pub reset : Manager → Manager
  reset m = record m {
    next_stable_track_id = 1;
    tracks = [];
    stable_id_by_source = [];
    last_visible_tracks = [];
    last_candidate_context_tracks = [];
  }

  -- The class of the track that a detection's source id is mapped to is the detection's.
  unfoldable pub has_source_match : Manager → Detection → Bool
  has_source_match m detection = is_some (do
    source ← detection.track_id
    stable_id ← lookup source m.stable_id_by_source
    memory ← lookup stable_id m.tracks
    if str_eq memory.class_name detection.class_name then some stable_id else none)

  -- `key(d) < key(e)` for the key (0 or 1, -confidence).
  unfoldable pub sorts_before : Manager → Detection → Detection → Bool
  unfolding has_source_match
  sorts_before m d e =
      let key = λ (x : Detection). if has_source_match m x then 0 else 1 in
      if nat_beq (key d) (key e)
      then fl.lt (fl.neg d.confidence) (fl.neg e.confidence)
      else ltb (key d) (key e)

  unfoldable pub source_match_is_plausible : TrackLifecycleConfig → TrackMemory → BoundingBox → Bool
  source_match_is_plausible c memory box =
      fl.lt zero_float (iou memory.detection.bbox box)
      || fl.le (center_distance_ratio memory.detection.bbox box)
          c.source_match_center_distance_ratio

  unfoldable pub source_match : Manager → Detection → BoundingBox → List ℕ → Option ℕ
  unfolding source_match_is_plausible
  source_match m detection box matched = do
    source ← detection.track_id
    stable_id ← lookup source m.stable_id_by_source
    memory ← lookup stable_id m.tracks
    let fits =
        str_eq memory.class_name detection.class_name
        && not (contains matched stable_id)
        && source_match_is_plausible m.config memory box
    if fits then some stable_id else none

  -- The tests of the loop of `_find_spatial_reassociation` that `continue`, negated.
  unfoldable pub is_eligible :
      TrackLifecycleConfig → Detection → BoundingBox → List ℕ → ℕ → TrackMemory → Bool
  is_eligible c detection box matched stable_id memory =
      not (contains matched stable_id)
      && str_eq memory.class_name detection.class_name
      && is_candidate memory.state
      && not (fl.lt (iou memory.detection.bbox box) c.reassociate_iou_threshold)
      && not (
          fl.lt c.reassociate_center_distance_ratio
            (center_distance_ratio memory.detection.bbox box))

  unfoldable pub score : TrackMemory → BoundingBox → Float
  score memory box =
      fl.sub (iou memory.detection.bbox box) (center_distance_ratio memory.detection.bbox box)

  -- The loop over the tracks, with the best id and its score so far.
  unfoldable pub best_match :
      TrackLifecycleConfig
      → Detection
      → BoundingBox
      → List ℕ
      → Dict ℕ TrackMemory
      → Option ℕ
      → Float
      → Option ℕ
  unfolding is_eligible score
  best_match c detection box matched [] best best_score = best
  best_match c detection box matched ((stable_id, memory) ∷ rest) best best_score =
      let takes =
        is_eligible c detection box matched stable_id memory
        && fl.lt best_score (score memory box) in
      best_match c detection box matched rest (if takes then some stable_id else best)
        (if takes then score memory box else best_score)

  unfoldable pub find_spatial_reassociation : Manager → Detection → BoundingBox → List ℕ → Option ℕ
  unfolding best_match
  find_spatial_reassociation m detection box matched =
      best_match m.config detection box matched m.tracks none fl.minus_infinity

  unfoldable pub match_existing_track : Manager → Detection → List ℕ → Option (List ℕ) → Option ℕ
  unfolding source_match find_spatial_reassociation
  match_existing_track m detection matched frame_shape =
      let box = clamp_bbox detection.bbox frame_shape in
      elim (source_match m detection box matched) [
        | some stable_id ↦ some stable_id
        | none ↦ find_spatial_reassociation m detection box matched
      ]

  -- One round of the first loop of `update`: the id that the detection goes to, and the new state.
  unfoldable pub observe : Manager → Detection → ℕ → Option (List ℕ) → List ℕ → Option (ℕ × Manager)
  unfolding match_existing_track create_track apply_detection
  observe m detection ts frame_shape seen =
      elim (match_existing_track m detection seen frame_shape) [
        | some stable_id ↦ do
          m' ← apply_detection m stable_id detection ts frame_shape
          some (stable_id, m')
        | none ↦
            let (stable_id, created) = create_track m detection ts in
            do m' ← apply_detection created stable_id detection ts frame_shape; some (stable_id, m')
      ]

  unfoldable pub observe_all :
      Manager → List Detection → ℕ → Option (List ℕ) → List ℕ → Option (List ℕ × Manager)
  observe_all m [] ts frame_shape seen = some (seen, m)
  observe_all m (d ∷ ds) ts frame_shape seen = do
    (stable_id, m') ← observe m d ts frame_shape seen
    observe_all m' ds ts frame_shape (seen ++ stable_id ∷ [])

  -- (state rank, first seen, -hits, -confidence)
  unfoldable pub ranks_before : TrackMemory → TrackMemory → Bool
  ranks_before a b =
      let rank = λ (x : TrackMemory). if is_active x.state then 0 else 1 in
      if nat_beq (rank a) (rank b)
      then (if nat_beq a.first_seen_ts b.first_seen_ts
          then (if nat_beq a.hits b.hits
              then fl.lt (fl.neg a.detection.confidence) (fl.neg b.detection.confidence)
              else ltb b.hits a.hits)
          else ltb a.first_seen_ts b.first_seen_ts)
      else ltb (rank a) (rank b)

  -- The keys of `sorted`, looked up before it sorts.
  unfoldable pub ranked : Manager → List ℕ → Option (List (ℕ × TrackMemory))
  ranked m [] = some []
  ranked m (stable_id ∷ ids) = do
    memory ← lookup stable_id m.tracks
    rest ← ranked m ids
    some ((stable_id, memory) ∷ rest)

  unfoldable pub is_established : TrackLifecycleConfig → TrackMemory → ℕ → Bool
  is_established c memory ts = ltb memory.first_seen_ts ts && leb c.tentative_hits memory.hits

  unfoldable pub is_suppressible_duplicate :
      TrackLifecycleConfig → TrackMemory → TrackMemory → ℕ → Bool
  unfolding is_established
  is_suppressible_duplicate c candidate selected ts =
      str_eq candidate.class_name selected.class_name
      && not
          (fl.lt (iou candidate.detection.bbox selected.detection.bbox) c.duplicate_iou_threshold)
      && not (is_established c candidate ts && is_established c selected ts)

  unfoldable pub candidate_is_clearly_better :
      TrackLifecycleConfig → TrackMemory → TrackMemory → Bool
  candidate_is_clearly_better c candidate selected =
      fl.le (fl.add selected.detection.confidence c.duplicate_replacement_confidence_delta)
        candidate.detection.confidence

  -- The first selected id of which the candidate is a duplicate, with its memory.
  unfoldable pub find_duplicate :
      Manager → TrackMemory → List ℕ → ℕ → Option (Option (ℕ × TrackMemory))
  unfolding is_suppressible_duplicate
  find_duplicate m candidate [] ts = some none
  find_duplicate m candidate (selected_id ∷ ids) ts = do
    selected ← lookup selected_id m.tracks
    let rest = find_duplicate m candidate ids ts
    let found = is_suppressible_duplicate m.config candidate selected ts
    if found then some (some (selected_id, selected)) else rest

  unfoldable pub suppress_into : Manager → ℕ → TrackMemory → ℕ → TrackMemory → Manager
  unfolding candidate_is_clearly_better
  suppress_into m stable_id memory selected_id selected =
      let forgotten = forget_track m stable_id in
      if candidate_is_clearly_better m.config memory selected
      then replace_with_duplicate forgotten selected_id selected memory
      else forgotten

  -- The loop over the ranked ids, with what is selected and suppressed so far.
  unfoldable pub suppress_loop : Manager → List ℕ → ℕ → List ℕ → List ℕ → Option (List ℕ × Manager)
  unfolding find_duplicate suppress_into
  suppress_loop m [] ts selected suppressed = some (suppressed, m)
  suppress_loop m (stable_id ∷ ids) ts selected suppressed = elim (lookup stable_id m.tracks) [
    | none ↦ suppress_loop m ids ts selected suppressed
    | some memory ↦ do
      duplicate ← find_duplicate m memory selected ts
      elim duplicate [
        | none ↦ suppress_loop m ids ts (selected ++ stable_id ∷ []) suppressed
        | some (selected_id, selected_memory) ↦
            suppress_loop (suppress_into m stable_id memory selected_id selected_memory) ids ts
              selected (stable_id ∷ suppressed)
      ]
  ]

  unfoldable pub suppress_duplicate_detections : Manager → List ℕ → ℕ → Option (List ℕ × Manager)
  unfolding ranked ranks_before suppress_loop
  suppress_duplicate_detections m stable_ids ts = do
    keyed ← ranked m stable_ids
    let order = sorted (λ a b. ranks_before a.1 b.1) keyed
    suppress_loop m (map (λ e. e.0) order) ts [] []

  -- The active ones among the tracks seen in this frame.
  unfoldable pub visible_seen : Manager → List ℕ → List ℕ → List LifecycleTrack
  visible_seen m suppressed [] = []
  visible_seen m suppressed (stable_id ∷ ids) =
      let rest = visible_seen m suppressed ids in
      if contains suppressed stable_id then rest else elim (lookup stable_id m.tracks) [
        | none ↦ rest
        | some memory ↦ if is_active memory.state then to_lifecycle_track memory 0 ∷ rest else rest
      ]

  -- Whether a track that was not hit is kept for now.
  unfoldable pub may_coast : TrackLifecycleConfig → TrackMemory → ℕ → Bool
  may_coast c memory ts =
      is_published memory.state && leb (elapsed_ms memory.last_seen_ts ts) c.coast_ttl_ms

  -- One round of the last loop of `update`: the new state, and what becomes visible.
  unfoldable pub age_track :
      Manager → ℕ → TrackMemory → List ℕ → ℕ → Option (List ℕ) → Manager × List LifecycleTrack
  age_track m stable_id memory skipped ts frame_shape =
      if contains skipped stable_id
      then (m, [])
      else (if may_coast m.config memory ts
          then (let coasted = coast_memory m.config memory ts frame_shape in
              (
                record m { tracks = insert stable_id coasted m.tracks },
                to_lifecycle_track coasted (elapsed_ms memory.last_seen_ts ts) ∷ [],
              ))
          else (forget_track m stable_id, []))

  unfoldable pub age_tracks :
      Manager → Dict ℕ TrackMemory → List ℕ → ℕ → Option (List ℕ) → Manager × List LifecycleTrack
  unfolding age_track
  age_tracks m [] skipped ts frame_shape = (m, [])
  age_tracks m ((stable_id, memory) ∷ rest) skipped ts frame_shape =
      let (m', shown) = age_track m stable_id memory skipped ts frame_shape in
      let (m'', others) = age_tracks m' rest skipped ts frame_shape in (m'', shown ++ others)

  abbrev pub by_stable_id : LifecycleTrack → LifecycleTrack → Bool
  by_stable_id a b = ltb a.stable_track_id b.stable_track_id

  unfoldable pub candidate_context_snapshot : Manager → ℕ → List LifecycleTrack
  candidate_context_snapshot m ts = sorted by_stable_id (
      map (λ e. snapshot_of e.1 e.1.state (elapsed_ms e.1.last_seen_ts ts))
        (keep (λ e. is_candidate e.1.state) m.tracks))

  -- `update`, from the detections sorted and observed on: the state and the visible tracks.
  unfoldable pub publish :
      Manager → List ℕ → List ℕ → ℕ → Option (List ℕ) → List LifecycleTrack × Manager
  unfolding visible_seen may_coast age_tracks candidate_context_snapshot
  publish m seen suppressed ts frame_shape =
      let fresh = visible_seen m suppressed seen in
      let (aged, coasted) = age_tracks m m.tracks (seen ++ suppressed) ts frame_shape in
      let visible = sorted by_stable_id (fresh ++ coasted) in
      (
        visible,
        record aged {
          last_visible_tracks = visible;
          last_candidate_context_tracks = candidate_context_snapshot aged ts;
        },
      )

  unfoldable pub update :
      Manager → List Detection → ℕ → Option (List ℕ) → Option (List LifecycleTrack × Manager)
  unfolding sorts_before observe_all suppress_duplicate_detections publish
  update m detections ts frame_shape = do
    (seen, observed) ← observe_all m (sorted (sorts_before m) detections) ts frame_shape []
    (suppressed, settled) ← suppress_duplicate_detections observed seen ts
    some (publish settled seen suppressed ts frame_shape)
