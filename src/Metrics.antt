-- ===== src/Metrics.antt =====
-- The metrics of workers that a supervisor reads: backend/src/argus/supervisor/metrics_probe.py.
pub mod Labels
mod Examples
