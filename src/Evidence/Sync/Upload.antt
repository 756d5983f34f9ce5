-- ===== src/Evidence/Sync/Upload.antt =====
-- The upload itself: `LocalFirstEvidenceSyncService` of
-- backend/src/argus/services/local_first_sync.py.
use vision.Common.{ℕ, ◌+◌, String, Option, none, some, List, [], ◌∷◌, length, compare_nat}
use vision.Evidence.Ledger.{
  HashInput, EvidenceLedgerAction, evidence_upload_started, evidence_upload_available,
  evidence_upload_failed, AppendRequest, append_entry,
}
use vision.Evidence.Sync.{
  Database, LocalFirstPendingArtifact, LocalFirstSyncResult, LocalFirstSyncSummary, Payloads, Put,
  RemoteProfile, Store, list_pending, mark_upload_available, mark_upload_failed,
  mark_upload_started, stored, raised, promoted_result, failed_result,
}

abbrev pub request_of :
    LocalFirstPendingArtifact → EvidenceLedgerAction → ℕ → String → AppendRequest
request_of artifact action occurred_at payload = record {
  tenant_id = artifact.tenant_id;
  incident_id = artifact.incident_id;
  camera_id = artifact.camera_id;
  action = action;
  actor_type = "system";
  actor_subject = none;
  occurred_at = some occurred_at;
  payload = payload;
}

-- The variables `promoted` and `failed` of the loop.
pub record Counters : Type 0 where
  pub promoted : ℕ
  pub failed : ℕ

abbrev pub count : Put → Counters → Counters
count (raised err) counters = record counters { failed = counters.failed + 1 }
count (stored object) counters = record counters { promoted = counters.promoted + 1 }

module _ (digest : HashInput → String) (now : ℕ → ℕ) (texts : Payloads) where
  -- `_append_ledger`; the clock of the ledger is not read, since the time is given.
  unfoldable pub append_ledger :
      Database → LocalFirstPendingArtifact → EvidenceLedgerAction → ℕ → String → Database
  append_ledger db artifact action occurred_at payload =
      let (entry, table) =
        append_entry digest db.ledger (request_of artifact action occurred_at payload) 0 in
      record db { ledger = table }

  unfoldable pub begin_upload : Database → LocalFirstPendingArtifact → RemoteProfile → Database
  unfolding append_ledger mark_upload_started
  begin_upload db artifact profile =
      let attempted_at = now db.ticks in
      let started = mark_upload_started db artifact profile.profile_id attempted_at in
      append_ledger (record started { ticks = db.ticks + 1 }) artifact evidence_upload_started
        attempted_at (texts.started artifact profile)

  -- What follows the upload, which was begun at `attempted_at`.
  unfoldable pub end_upload :
      Database
      → LocalFirstPendingArtifact
      → RemoteProfile
      → ℕ
      → Put
      → LocalFirstSyncResult × Database
  unfolding append_ledger mark_upload_failed mark_upload_available
  end_upload db artifact profile attempted_at (raised err) = (
    record { artifact_id = artifact.artifact_id; status = failed_result; error = some err },
    append_ledger (mark_upload_failed db artifact err attempted_at) artifact evidence_upload_failed
        attempted_at (texts.failure artifact profile err),
  )
  end_upload db artifact profile attempted_at (stored object) =
      let completed_at = now db.ticks in
      (
        record { artifact_id = artifact.artifact_id; status = promoted_result; error = none },
        append_ledger
            (mark_upload_available (record db { ticks = db.ticks + 1 }) artifact object
              completed_at)
            artifact evidence_upload_available completed_at (texts.success artifact profile object),
      )

  unfoldable pub sync_artifact :
      Store → RemoteProfile → Database → LocalFirstPendingArtifact → LocalFirstSyncResult × Database
  unfolding begin_upload end_upload
  sync_artifact store profile db artifact =
      end_upload (begin_upload db artifact profile) artifact profile (now db.ticks) (store artifact)

  -- The loop over the artifacts; the counters go through it as its variables do.
  unfoldable pub sync_all :
      Store
      → RemoteProfile
      → Counters
      → Database
      → List LocalFirstPendingArtifact
      → (List LocalFirstSyncResult × Counters) × Database
  unfolding sync_artifact
  sync_all store profile counters db [] = (([], counters), db)
  sync_all store profile counters db (artifact ∷ artifacts) =
      let (result, db') = sync_artifact store profile db artifact in
      let counters' = count (store artifact) counters in
      let ((results, final), db'') = sync_all store profile counters' db' artifacts in
      ((result ∷ results, final), db'')

-- A factory that refuses the profile raises, after the listing and before any change.
unfoldable pub sync_pending_artifacts :
    (HashInput → String)
    → (ℕ → ℕ)
    → Payloads
    → (RemoteProfile → Option Store)
    → Database
    → ℕ
    → RemoteProfile
    → ℕ
    → Option (LocalFirstSyncSummary × Database)
unfolding sync_all
sync_pending_artifacts digest now texts factory db tenant_id profile limit =
    elim (factory profile) [
      | none ↦ none
      | some store ↦
          let pending = list_pending db tenant_id limit in
          let zero_counters : Counters = record { promoted = 0; failed = 0 } in
          let ((results, counters), db') =
            sync_all digest now texts store profile zero_counters db pending in
          some (
            record {
              processed = length pending;
              promoted = counters.promoted;
              failed = counters.failed;
              results = results;
            },
            db',
          )
    ]
