-- ===== src/Evidence/Examples.antt =====
-- The theorems of the ledger and of the upload of artifacts at concrete inputs.
use vision.Common.{
  sorted, ℕ, ◌+◌, ◌-◌, ◌≡◌, refl, String, not, ◌&&◌, none, some, List, [], ◌∷◌, ◌++◌, map, keep,
  if◌then◌else◌, ◌==◌, compare_nat, Ensures,
}
use vision.Evidence.Ledger.{
  HashInput, AppendRequest, Table, incident_triggered, clip_available, append_entry, entry_after,
  input_for, load_latest_entry, list_for_incident, is_of,
}
use vision.Evidence.Ledger.Chain.{
  input_of, IsChain, append_entry-IsChain, append_entry-list_for_incident,
}
use vision.Evidence.Ledger.Agreement.{append_all, append_all-list_for_incident}
use vision.Evidence.Sync.{
  EvidenceArtifact, upload_pending, local_filesystem, s3_compatible, edge, cloud,
  LocalFirstPendingArtifact, RemoteProfile, Put, stored, raised, Payloads, Database, is_pending,
  list_pending,
}
use vision.Evidence.Sync.Upload.{sync_all, Counters, sync_pending_artifacts}
use vision.Evidence.Sync.Pass.{IsReported, sync_pending_artifacts-IsReported}
use vision.Evidence.Sync.Rows.{is_moved, sync_all-pending}

abbrev by_payload : HashInput → String
by_payload input = input.payload

abbrev triggered : AppendRequest
triggered = record {
  tenant_id = 1;
  incident_id = 7;
  camera_id = 3;
  action = incident_triggered;
  actor_type = "system";
  actor_subject = none;
  occurred_at = some 10;
  payload = "a";
}

abbrev clipped : AppendRequest
clipped = record triggered { action = clip_available; occurred_at = none; payload = "b" }

abbrev table : Table
table = (append_entry by_payload [] triggered 11).1

table-chains : (i : ℕ) → IsChain by_payload (keep (is_of i) table)
unfolding keep
table-chains = append_entry-IsChain by_payload [] triggered 11 (λ j. tt)

append_entry-IsChain_example :
    IsChain by_payload (keep (is_of 7) (append_entry by_payload table clipped 12).1)
append_entry-IsChain_example = append_entry-IsChain by_payload table clipped 12 table-chains 7

append_entry-list_for_incident_example :
    let (entry, table') = append_entry by_payload table clipped 12 in
    list_for_incident table' 7 ≡ (
      if clipped.incident_id == 7
      then list_for_incident table 7 ++ entry ∷ []
      else list_for_incident table 7)
append_entry-list_for_incident_example =
    append_entry-list_for_incident by_payload table clipped 12 7 table-chains

abbrev by_sequence : HashInput → String
by_sequence input = if input.sequence == 1 then "" else "b"

-- The same incident for two cameras: the id of the camera is not hashed.
abbrev calls_of : ℕ → List (AppendRequest × ℕ)
calls_of camera_id =
    (record triggered { camera_id = camera_id }, 11)
    ∷ (record clipped { camera_id = camera_id }, 12)
    ∷ []

append_all-list_for_incident_example :
    map input_of (list_for_incident (append_all by_sequence [] (calls_of 3)) 7)
    ≡ map input_of (list_for_incident (append_all by_sequence [] (calls_of 4)) 7)
unfolding input_of append_all append_entry entry_after load_latest_entry keep input_for sorted
append_all-list_for_incident_example =
    append_all-list_for_incident by_sequence (calls_of 3) (calls_of 4) 7
      (((λ h. refl), ((λ h. cc), tt)), (((λ h. cc), ((λ h. refl), tt)), tt)) refl

abbrev artifact_row : ℕ → EvidenceArtifact
artifact_row id = record {
  id = id;
  tenant_id = 1;
  incident_id = 7;
  camera_id = 3;
  status = upload_pending;
  provider = local_filesystem;
  scope = edge;
  bucket = none;
  object_key = "clip.mp4";
  content_type = "video/mp4";
  sha256 = "00";
  size_bytes = 100;
  created_at = 50 - id;
}

-- The newer artifact is listed second.
abbrev before : Database
before = record {
  artifacts = artifact_row 20 ∷ artifact_row 21 ∷ [];
  incidents = [];
  attempts = [];
  ledger = table;
  ticks = 0;
}

abbrev texts : Payloads
texts = record {
  started = λ artifact profile. "started";
  failure = λ artifact profile err. err;
  success = λ artifact profile object. object.object_key;
}

-- The remote store refuses the first artifact.
abbrev remote : LocalFirstPendingArtifact → Put
remote artifact =
    if artifact.artifact_id == 20
    then raised "refused"
    else stored (record {
      provider = s3_compatible;
      scope = cloud;
      bucket = some "evidence";
      object_key = artifact.object_key;
      content_type = artifact.content_type;
      sha256 = artifact.sha256;
      size_bytes = artifact.size_bytes;
      review_url = none;
    })

abbrev profile : RemoteProfile
profile = record { profile_id = some 4; profile_hash = none }

sync_pending_artifacts-IsReported_example :
    Ensures (IsReported by_payload (λ tick. 100 + tick) texts remote before 1 5) (
      sync_pending_artifacts by_payload
        (λ tick. 100 + tick)
        texts
        (λ p. some remote)
        before
        1
        profile
        5)
sync_pending_artifacts-IsReported_example =
    sync_pending_artifacts-IsReported by_payload (λ tick. 100 + tick) texts (λ p. some remote)
      before 1 profile 5 remote refl table-chains

abbrev none_yet : Counters
none_yet = record { promoted = 0; failed = 0 }

abbrev passed : Database
passed =
    (sync_all by_payload (λ tick. 100 + tick) texts remote profile none_yet before
      (list_pending before 1 5)).1

sync_all-pending_example :
    keep (is_pending 1) passed.artifacts
    ≡ keep
        (λ row. is_pending 1 row && not (is_moved remote (list_pending before 1 5) row.id))
        before.artifacts
sync_all-pending_example =
    sync_all-pending by_payload (λ tick. 100 + tick) texts remote profile none_yet before
      (list_pending before 1 5) 1
