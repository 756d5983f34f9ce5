-- ===== src/Scheduling/Examples.antt =====
-- The theorem of the scheduler at a concrete input.
use vision.Common.{
  Dict, ℕ, ◌+◌, ◌≡◌, ◌&&◌, true, none, List, [], ◌∷◌, any, lookup, if◌then◌else◌, ◌==◌, compare_nat,
}
use vision.Scheduling.{CameraWorkerRecord, central, edge, is_central, sync}
use vision.Scheduling.Sync.{started, sync_lem}

abbrev records : List CameraWorkerRecord
records = record { camera_id = 7; mode = central } ∷ record { camera_id = 8; mode = edge } ∷ []

-- The edge camera's worker runs, the central one's does not yet.
abbrev before : Dict ℕ ℕ
before = (8, 41) ∷ []

sync_lem_example : lookup 7 (sync (λ handle. true) (λ camera_id. camera_id + 33) before records) ≡ (
    if any (λ r. is_central r.mode && r.camera_id == 7) records
    then started (λ handle. true) (λ camera_id. camera_id + 33) (lookup 7 before) 7
    else none)
sync_lem_example = sync_lem (λ handle. true) (λ camera_id. camera_id + 33) before records 7
