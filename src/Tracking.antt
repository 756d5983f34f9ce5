-- ===== src/Tracking.antt =====
-- backend/src/argus/vision/track_lifecycle.py: stable track identities over a stream of detections.
pub mod Geometry
pub mod Memory
pub mod Steps
pub mod Update
pub mod Invariant
pub mod Preservation
pub mod Matching
pub mod Observation
pub mod Suppression
pub mod Ageing
pub mod Results
pub mod Lifetime
mod Examples
