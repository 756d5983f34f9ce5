-- ===== src/Operations/Reports/Current.antt =====
-- The report that decides a worker's status is the camera's newest.
use mathlib.Core.List.{Mem}
use vision.Common.{
  ℕ, ◌+◌, ◌≤◌, ◌≡◌, ◌⊎◌, ◌≢◌, inl, inr, Bool, true, false, Option, none, some, List, lookup,
  contains, All, ltb, ◌==◌, ◌&&◌, compare_nat, arith, Bool-cases,
}
use vision.Operations.Latest.Newest.{IsNewest, keep_first-IsNewest}
use vision.Operations.Reports.{
  WorkerRuntimeReport, WorkerRuntimeState, WorkerRuntimeStatus, starting, running, stopped,
  draining, error, unknown, not_reported, running_status, heartbeat, report_stale_after,
  status_of_state, latest_runtime_reports_by_camera, runtime_status_for_report,
}

abbrev pub is_by : ℕ → ℕ → WorkerRuntimeReport → Bool
is_by tenant_id camera_id row = row.tenant_id == tenant_id && row.camera_id == camera_id

-- Shown as running only with a newest report that is fresh and says so; as not reported only without.
pub record IsShown (table : List WorkerRuntimeReport) (tenant_id camera_id now : ℕ)
    (status : WorkerRuntimeStatus) : Type 0 where
  pub up :
      status ≡ running_status
      → (r : WorkerRuntimeReport) × Mem r table
        × (is_by tenant_id camera_id r ≡ true)
        × All (λ x. (is_by tenant_id camera_id x ≡ false) ⊎ (x.heartbeat_at ≤ r.heartbeat_at)) table
        × (now ≤ r.heartbeat_at + report_stale_after)
        × (status_of_state r.runtime_state ≡ running_status)
  pub silent : status ≡ not_reported → All (λ x. is_by tenant_id camera_id x ≡ false) table

shown :
    (table : List WorkerRuntimeReport) (t c now : ℕ) (o : Option WorkerRuntimeReport)
    → IsNewest heartbeat (is_by t c) table o
    → IsShown table t c now (runtime_status_for_report o now)
unfolding runtime_status_for_report
shown table t c now none newest = record { up = λ e. cc; silent = λ e. newest }
shown table t c now (some r) newest =
    elim (Bool-cases (ltb (r.heartbeat_at + report_stale_after) now)) [
      | inl stale ↦
          rw (stale, runtime_status_for_report) (record { up = λ e. cc; silent = λ e. cc })
      | inr fresh ↦
          rw (fresh, runtime_status_for_report)
            (record {
              up = λ e. (r, newest.0, newest.1, newest.2, ground (arith, fresh), e);
              silent = λ e. absurd (no_silence r.runtime_state e);
            })
    ]
  where
    no_silence : (state : WorkerRuntimeState) → status_of_state state ≢ not_reported
    no_silence starting e = cc
    no_silence running e = cc
    no_silence stopped e = cc
    no_silence draining e = cc
    no_silence error e = cc
    no_silence unknown e = cc

-- A camera whose status is asked for is shown as running only if it has a report than which none of its
-- reports is newer, that is at most fifteen minutes old, and whose worker starts, runs or drains; it is
-- shown as not reported only if it has no report.
pub runtime_status-IsShown :
    (table : List WorkerRuntimeReport) (tenant_id : ℕ) (camera_ids : List ℕ) (camera_id now : ℕ)
    → contains camera_ids camera_id ≡ true
    → IsShown table tenant_id camera_id now (
        runtime_status_for_report
          (lookup camera_id (latest_runtime_reports_by_camera table tenant_id camera_ids))
          now)
unfolding latest_runtime_reports_by_camera
runtime_status-IsShown table t camera_ids c now asked =
    shown table t c now (lookup c (latest_runtime_reports_by_camera table t camera_ids)) (
      keep_first-IsNewest (λ row. row.camera_id) heartbeat (λ row. row.tenant_id == t) table
        camera_ids c asked)
