-- ===== src/Operations.antt =====
-- backend/src/argus/services/supervisor_operations.py: the control plane's tables of assignments,
-- lifecycle requests and reports, which the supervisors of the nodes poll and write to.
pub mod Latest
pub mod Assignments
pub mod Requests
pub mod Reports
pub mod Admissions
pub mod Controls
mod Examples
