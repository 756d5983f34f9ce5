-- ===== src/Scheduling.antt =====
-- backend/src/argus/inference/scheduler.py: `Scheduler.sync` over the cameras of the repository. A
-- process is its handle; which handles live, and the handle that a launch gives, are arguments.
pub mod Sync
mod Examples
use vision.Common.{
  ℕ, Bool, true, false, not, ◌||◌, ◌&&◌, ◌++◌, Option, none, some, List, [], ◌∷◌, Dict, lookup,
  insert, keep, contains, map, if◌then◌else◌, String, compare_nat,
}

pub data ProcessingMode : Type 0 where
  central edge hybrid : ProcessingMode

abbrev pub is_central : ProcessingMode → Bool
is_central central = true
is_central hybrid = true
is_central edge = false

pub record CameraWorkerRecord : Type 0 where
  pub camera_id : ℕ
  pub mode : ProcessingMode

-- The keys of the dictionary `desired`, each once.
unfoldable pub add_desired : List ℕ → List CameraWorkerRecord → List ℕ
add_desired ids [] = ids
add_desired ids (r ∷ records) =
    add_desired
      (if is_central r.mode && not (contains ids r.camera_id) then ids ++ r.camera_id ∷ [] else ids)
      records

unfoldable pub desired_of : List CameraWorkerRecord → List ℕ
unfolding add_desired
desired_of records = add_desired [] records

abbrev pub lives : Option ℕ → (ℕ → Bool) → Bool
lives none polls = false
lives (some handle) polls = polls handle

unfoldable pub start_missing : (ℕ → Bool) → (ℕ → ℕ) → Dict ℕ ℕ → List ℕ → Dict ℕ ℕ
start_missing polls launch workers [] = workers
start_missing polls launch workers (camera_id ∷ rest) =
    start_missing polls launch
      (if lives (lookup camera_id workers) polls
        then workers
        else insert camera_id (launch camera_id) workers)
      rest

unfoldable pub sync : (ℕ → Bool) → (ℕ → ℕ) → Dict ℕ ℕ → List CameraWorkerRecord → Dict ℕ ℕ
unfolding start_missing desired_of
sync polls launch workers records =
    let desired = desired_of records in
    keep (λ e. contains desired e.0) (start_missing polls launch workers desired)
