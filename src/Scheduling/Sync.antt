-- ===== src/Scheduling/Sync.antt =====
-- Which handles a synchronisation leaves in the dictionary of the workers.
use vision.Common.{
  IsUnique, snoc-IsUnique, ℕ, ◌≡◌, refl, Bool, not, ◌&&◌, ◌||◌, Option, none, some, List, [], ◌∷◌,
  ◌++◌, Dict, lookup, insert, keep, any, contains, contains-append, if◌then◌else◌, ◌==◌,
  compare_nat, lookup-insert, nat_beq_iff, arith,
}
use vision.Scheduling.{
  CameraWorkerRecord, is_central, add_desired, desired_of, lives, start_missing, sync,
}

contains-add_desired :
    (ids : List ℕ) (records : List CameraWorkerRecord) (camera_id : ℕ)
    → contains (add_desired ids records) camera_id
      ≡ (contains ids camera_id || any (λ r. is_central r.mode && r.camera_id == camera_id) records)
unfolding add_desired any contains
contains-add_desired ids [] c = ground arith
contains-add_desired ids (r ∷ records) c = ground (
  arith,
  nat_beq_iff r.camera_id c,
  contains-append ids (r.camera_id ∷ []) c,
  contains-add_desired ids records c,
  contains-add_desired (ids ++ r.camera_id ∷ []) records c,
)

lookup-kept :
    (ids : List ℕ) (workers : Dict ℕ ℕ) (camera_id : ℕ)
    → lookup camera_id (keep (λ e. contains ids e.0) workers)
      ≡ (if contains ids camera_id then lookup camera_id workers else none)
unfolding lookup keep
lookup-kept ids [] c = ground arith
lookup-kept ids ((i, handle) ∷ workers) c =
    ground (arith, nat_beq_iff i c, lookup-kept ids workers c)

-- The handle of a camera after the start of the missing ones.
abbrev pub started : (ℕ → Bool) → (ℕ → ℕ) → Option ℕ → ℕ → Option ℕ
started polls launch held camera_id = if lives held polls then held else some (launch camera_id)

start_missing_lem :
    (polls : ℕ → Bool) (launch : ℕ → ℕ) (workers : Dict ℕ ℕ) (ids : List ℕ) (camera_id : ℕ)
    → IsUnique ids
    → lookup camera_id (start_missing polls launch workers ids) ≡ (
        if contains ids camera_id
        then started polls launch (lookup camera_id workers) camera_id
        else lookup camera_id workers)
unfolding start_missing contains
start_missing_lem polls launch workers [] c u = refl
start_missing_lem polls launch workers (i ∷ ids) c u = ground (
  arith,
  nat_beq_iff i c,
  u.0,
  lookup-insert i c (launch i) workers,
  start_missing_lem polls launch workers ids c u.1,
  start_missing_lem polls launch (insert i (launch i) workers) ids c u.1,
)

add_desired-IsUnique :
    (records : List CameraWorkerRecord) (ids : List ℕ)
    → IsUnique ids
    → IsUnique (add_desired ids records)
unfolding add_desired
add_desired-IsUnique [] ids u = u
add_desired-IsUnique (r ∷ records) ids u =
    add_desired-IsUnique records
      (if is_central r.mode && not (contains ids r.camera_id) then ids ++ r.camera_id ∷ [] else ids)
      (ground (arith, snoc-IsUnique ids r.camera_id))

-- After a synchronisation, the dictionary of the workers holds a handle for exactly the cameras that are
-- processed centrally or in hybrid mode: the handle that it held if its process lives, else that of
-- the process that was launched.
pub sync_lem :
    (polls : ℕ → Bool) (launch : ℕ → ℕ) (workers : Dict ℕ ℕ) (records : List CameraWorkerRecord)
    (camera_id : ℕ)
    → lookup camera_id (sync polls launch workers records) ≡ (
        if any (λ r. is_central r.mode && r.camera_id == camera_id) records
        then started polls launch (lookup camera_id workers) camera_id
        else none)
unfolding sync desired_of contains
sync_lem polls launch workers records c =
    let ids = add_desired [] records in
    ground (
      arith,
      lookup-kept ids (start_missing polls launch workers ids) c,
      contains-add_desired [] records c,
      start_missing_lem polls launch workers ids c (add_desired-IsUnique records [] tt),
    )
