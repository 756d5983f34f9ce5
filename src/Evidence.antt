-- ===== src/Evidence.antt =====
-- The evidence of incidents: the ledger of backend/src/argus/services/evidence_ledger.py, and the
-- upload of local artifacts of backend/src/argus/services/local_first_sync.py, which writes to it.
pub mod Ledger
pub mod Sync
mod Examples
