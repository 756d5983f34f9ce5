-- ===== src/Runtime.antt =====
-- The choice of the runtime that a worker uses for its model: backend/src/argus/vision/
-- runtime_selection.py and backend/src/argus/services/model_admission.py.
pub mod Selection
pub mod Admission
mod Examples
