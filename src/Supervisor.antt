-- ===== src/Supervisor.antt =====
-- backend/src/argus/supervisor: the agent of a node that carries out lifecycle requests.
pub mod Adapter
pub mod Reconciler
mod Examples
