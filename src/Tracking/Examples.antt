-- ===== src/Tracking/Examples.antt =====
-- Runs of the manager, and the theorems at concrete inputs, over signed thousandths.
use vision.Common.{
  ℕ, All, ◌⊎◌, true, false, compare_nat, ◌+◌, ◌*◌, ◌≡◌, refl, sorted, contains, lookup, insert,
  remove, keep, Option, none, some, [], ◌∷◌, Ensures, lookup,
}
use vision.Common.Fixed.{fixed-IsOrdered, pos, fixed, root_from, quotient, product, multiply, power}
use vision.Detection.{Detection}
use vision.Tracking.Matching.{find_spatial_reassociation-best}
use vision.Tracking.Observation.{IsObserved, observe_all-IsObserved}
use vision.Tracking.Memory.{Manager, TrackMemory, active, default_config, elapsed_ms}
use vision.Tracking.Geometry.{iou, clamp_bbox, center_distance_ratio}
use vision.Tracking.Update.{
  find_spatial_reassociation, is_eligible, score, observe_all, init, update, observe,
}
use vision.Tracking.Invariant.{Inv}
use vision.Tracking.Lifetime.{Frame, IsUpdated, update-IsUpdated, run, run-init-Inv, init-Inv}

abbrev person_at : ℕ → ℕ → ℕ → Detection
person_at source x confidence = record {
  class_name = "person";
  confidence = pos confidence;
  bbox = (pos (x * 1000), pos 0, pos (x * 1000 + 50000), pos 100000);
  class_id = none;
  track_id = some source;
  attributes = [];
  zone_id = none;
  speed_kph = none;
  direction_deg = none;
}

-- A confident detection at 1 s, the same person nearby at 1.1 s under another source id.
abbrev first_frame : Frame
first_frame = (person_at 7 0 900 ∷ [], 1000000, none)

abbrev second_frame : Frame
second_frame = (person_at 8 2 900 ∷ [], 1100000, none)

two_frames : Option Manager
unfolding run update init default_config
two_frames = run (init default_config) (first_frame ∷ second_frame ∷ [])

abbrev next_id : Option Manager → ℕ
next_id none = 0
next_id (some m) = m.next_stable_track_id

-- The person keeps the stable id 1.
two_frames-next : next_id two_frames ≡ 2
unfolding two_frames root_from quotient product multiply power sorted contains lookup insert remove
    keep observe iou clamp_bbox center_distance_ratio
two_frames-next = refl

run-init-Inv_example : Ensures Inv (run (init default_config) (first_frame ∷ second_frame ∷ []))
run-init-Inv_example = run-init-Inv default_config (first_frame ∷ second_frame ∷ [])

update-IsUpdated_example :
    Ensures
      (IsUpdated (init default_config) 1000000)
      (update (init default_config) first_frame.0 1000000 none)
update-IsUpdated_example =
    update-IsUpdated (init default_config) first_frame.0 1000000 none (init-Inv default_config)

abbrev one_track : Manager
one_track = record {
  config = default_config;
  next_stable_track_id = 2;
  tracks =
      (
        1,
        record {
          stable_track_id = 1;
          class_name = "person";
          source_track_id = some 7;
          state = active;
          detection = person_at 7 0 900;
          first_seen_ts = 1000000;
          last_seen_ts = 1000000;
          updated_ts = 1000000;
          hits = 1;
          missing_updates = 0;
          velocity = (pos 0, pos 0, pos 0, pos 0);
        },
      )
      ∷ [];
  stable_id_by_source = (7, 1) ∷ [];
  last_visible_tracks = [];
  last_candidate_context_tracks = [];
}

find_spatial_reassociation-best_example :
    let d = person_at 8 2 900 in
    (memory : TrackMemory) × (lookup 1 one_track.tracks ≡ some memory)
    × (is_eligible one_track.config d d.bbox [] 1 memory ≡ true)
    × All
        (λ x.
          (is_eligible one_track.config d d.bbox [] x.0 x.1 ≡ false)
          ⊎ (fixed.le (score x.1 d.bbox) (score memory d.bbox) ≡ true))
        one_track.tracks
unfolding lookup find_spatial_reassociation contains iou multiply quotient default_config
    center_distance_ratio root_from
find_spatial_reassociation-best_example =
    find_spatial_reassociation-best fixed-IsOrdered one_track (person_at 8 2 900)
      (person_at 8 2 900).bbox [] 1 (refl, tt) refl

observe_all-IsObserved_example :
    Ensures
      (IsObserved (init default_config) first_frame.0 1000000 [])
      (observe_all (init default_config) first_frame.0 1000000 none [])
observe_all-IsObserved_example =
    observe_all-IsObserved (init default_config) first_frame.0 1000000 none []
      (init-Inv default_config) tt tt

-- Half a millisecond is not always a tie in doubles.
elapsed_ms_tie : elapsed_ms 0 501500 ≡ 501
unfolding elapsed_ms
elapsed_ms_tie = refl
