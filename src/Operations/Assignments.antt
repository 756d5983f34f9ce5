-- ===== src/Operations/Assignments.antt =====
-- The assignments of cameras to nodes, in backend/src/argus/services/supervisor_operations.py. A
-- table is its rows; the database gives a new row its id and the time of its creation.
pub mod Active
use vision.Common.{
  ℕ, String, Bool, true, false, Option, none, some, List, [], ◌∷◌, Dict, insert, contains, keep,
  sorted, ◌==◌, ◌&&◌, if◌then◌else◌, compare_nat,
}
use vision.Operations.Latest.{is_newer, is_older, first_of}

pub data WorkerDesiredState : Type 0 where
  desired not_desired manual supervised : WorkerDesiredState

pub record WorkerAssignment : Type 0 where
  pub id : ℕ
  pub tenant_id : ℕ
  pub camera_id : ℕ
  pub edge_node_id : Option ℕ
  pub desired_state : WorkerDesiredState
  pub active : Bool
  pub supersedes_assignment_id : Option ℕ
  pub assigned_by_subject : Option String
  pub created_at : ℕ

pub record WorkerAssignmentCreate : Type 0 where
  pub camera_id : ℕ
  pub edge_node_id : Option ℕ
  pub desired_state : WorkerDesiredState

abbrev pub created : WorkerAssignment → ℕ
created row = row.created_at

unfoldable pub list_assignments : List WorkerAssignment → ℕ → Bool → List WorkerAssignment
list_assignments table tenant_id active_only =
    let rows = sorted (is_older created) (keep (λ row. row.tenant_id == tenant_id) table) in
    if active_only then keep (λ row. row.active) rows else rows

unfoldable pub keep_last :
    List ℕ → Dict ℕ WorkerAssignment → List WorkerAssignment → Dict ℕ WorkerAssignment
keep_last camera_ids latest [] = latest
keep_last camera_ids latest (row ∷ rows) =
    keep_last camera_ids
      (if contains camera_ids row.camera_id then insert row.camera_id row latest else latest) rows

unfoldable pub latest_assignments_by_camera :
    List WorkerAssignment → ℕ → List ℕ → Dict ℕ WorkerAssignment
unfolding list_assignments keep_last
latest_assignments_by_camera table tenant_id camera_ids =
    keep_last camera_ids [] (list_assignments table tenant_id true)

unfoldable pub deactivate : ℕ → List WorkerAssignment → List WorkerAssignment
deactivate id [] = []
deactivate id (row ∷ rows) =
    (if row.id == id then record row { active = false } else row) ∷ deactivate id rows

abbrev pub is_for : ℕ → ℕ → WorkerAssignment → Bool
is_for tenant_id camera_id row = row.tenant_id == tenant_id && row.camera_id == camera_id

-- `next((row for row in existing_rows if row.active), None)`
unfoldable pub active_existing : List WorkerAssignment → ℕ → ℕ → Option WorkerAssignment
active_existing table tenant_id camera_id =
    first_of (
      keep (λ row. row.active)
        (sorted (is_newer created) (keep (is_for tenant_id camera_id) table)))

abbrev pub id_of : Option WorkerAssignment → Option ℕ
id_of none = none
id_of (some row) = some row.id

abbrev pub deactivate_existing :
    Option WorkerAssignment → List WorkerAssignment → List WorkerAssignment
deactivate_existing none table = table
deactivate_existing (some row) table = deactivate row.id table

-- The id and the time are what the database gives the row.
unfoldable pub create_assignment :
    List WorkerAssignment
    → ℕ
    → WorkerAssignmentCreate
    → Option String
    → ℕ
    → ℕ
    → WorkerAssignment × List WorkerAssignment
unfolding active_existing deactivate
create_assignment table tenant_id payload actor_subject id now =
    let existing = active_existing table tenant_id payload.camera_id in
    let row : WorkerAssignment = record {
      id = id;
      tenant_id = tenant_id;
      camera_id = payload.camera_id;
      edge_node_id = payload.edge_node_id;
      desired_state = payload.desired_state;
      active = true;
      supersedes_assignment_id = id_of existing;
      assigned_by_subject = actor_subject;
      created_at = now;
    } in
    (row, row ∷ deactivate_existing existing table)
