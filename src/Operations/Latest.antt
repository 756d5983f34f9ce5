-- ===== src/Operations/Latest.antt =====
-- `latest[row.camera_id] = row` over rows in descending order of a time, for the first row of each
-- camera: the loop that the queries of backend/src/argus/services/supervisor_operations.py share.
pub mod Newest
use vision.Common.{
  ℕ, Bool, Option, none, some, List, [], ◌∷◌, Dict, member, insert, contains, keep, sorted, ltb,
  not, ◌&&◌, if◌then◌else◌, compare_nat,
}

module _ {A : Type 0} where
  -- `order_by(time.desc())` and `order_by(time.asc())`
  abbrev pub is_newer : (A → ℕ) → A → A → Bool
  is_newer time a b = ltb (time b) (time a)

  abbrev pub is_older : (A → ℕ) → A → A → Bool
  is_older time a b = ltb (time a) (time b)

  abbrev pub first_of : List A → Option A
  first_of [] = none
  first_of (row ∷ rows) = some row

  unfoldable pub keep_first : (A → ℕ) → List ℕ → Dict ℕ A → List A → Dict ℕ A
  keep_first camera camera_ids latest [] = latest
  keep_first camera camera_ids latest (row ∷ rows) =
      keep_first camera camera_ids
        (if contains camera_ids (camera row) && not (member (camera row) latest)
          then insert (camera row) row latest
          else latest)
        rows
