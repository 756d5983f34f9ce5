-- ===== src/Evidence/Sync.antt =====
-- backend/src/argus/services/local_first_sync.py: the upload of artifacts that a node stored locally.
-- The database is a record of tables; a row of an artifact carries its site's tenant. The injected
-- parts of the service are arguments: the remote store with the local reader, of which a call gives
-- an object or an exception's text; the clock, by the number of the call; and the JSON texts of the
-- ledger's payloads. An exception of a repository's or the ledger's call is outside the model.
pub mod Upload
pub mod Pass
pub mod Rows
use vision.Common.{
  ℕ, ◌+◌, String, Bool, Option, none, some, List, [], ◌∷◌, ◌++◌, Dict, lookup, insert, map, length,
  keep, sorted, take, ltb, ◌==◌, ◌&&◌, true, false, compare_nat, if◌then◌else◌,
}
use vision.Evidence.Ledger.{
  HashInput, EvidenceLedgerAction, evidence_upload_started, evidence_upload_available,
  evidence_upload_failed, Table, AppendRequest, append_entry,
}

pub data EvidenceArtifactStatus : Type 0 where
  available local_only remote_available upload_pending : EvidenceArtifactStatus
  quota_exceeded capture_failed expired : EvidenceArtifactStatus

pub data EvidenceStorageProvider : Type 0 where
  local_filesystem minio s3_compatible : EvidenceStorageProvider

pub data EvidenceStorageScope : Type 0 where
  edge central cloud : EvidenceStorageScope

pub record StoredEvidenceObject : Type 0 where
  pub provider : EvidenceStorageProvider
  pub scope : EvidenceStorageScope
  pub bucket : Option String
  pub object_key : String
  pub content_type : String
  pub sha256 : String
  pub size_bytes : ℕ
  pub review_url : Option String

pub record EvidenceArtifact : Type 0 where
  pub id : ℕ
  pub tenant_id : ℕ
  pub incident_id : ℕ
  pub camera_id : ℕ
  pub status : EvidenceArtifactStatus
  pub provider : EvidenceStorageProvider
  pub scope : EvidenceStorageScope
  pub bucket : Option String
  pub object_key : String
  pub content_type : String
  pub sha256 : String
  pub size_bytes : ℕ
  pub created_at : ℕ

pub record Incident : Type 0 where
  pub clip_url : Option String
  pub storage_bytes : ℕ

pub data AttemptStatus : Type 0 where
  pending uploading uploaded failed : AttemptStatus

pub record LocalFirstSyncAttempt : Type 0 where
  pub tenant_id : ℕ
  pub remote_profile_id : Option ℕ
  pub attempt_count : ℕ
  pub latest_status : AttemptStatus
  pub latest_error : Option String
  pub last_attempted_at : Option ℕ
  pub completed_at : Option ℕ

pub record LocalFirstPendingArtifact : Type 0 where
  pub tenant_id : ℕ
  pub incident_id : ℕ
  pub camera_id : ℕ
  pub artifact_id : ℕ
  pub object_key : String
  pub content_type : String
  pub sha256 : String
  pub size_bytes : ℕ

pub data ResultStatus : Type 0 where
  promoted_result failed_result : ResultStatus

pub record LocalFirstSyncResult : Type 0 where
  pub artifact_id : ℕ
  pub status : ResultStatus
  pub error : Option String

pub record LocalFirstSyncSummary : Type 0 where
  pub processed : ℕ
  pub promoted : ℕ
  pub failed : ℕ
  pub results : List LocalFirstSyncResult

pub record RemoteProfile : Type 0 where
  pub profile_id : Option ℕ
  pub profile_hash : Option String

pub data Put : Type 0 where
  stored : StoredEvidenceObject → Put
  raised : (error : String) → Put

abbrev pub Store : Type 0
Store = LocalFirstPendingArtifact → Put

pub record Payloads : Type 0 where
  pub started : LocalFirstPendingArtifact → RemoteProfile → String
  pub failure : LocalFirstPendingArtifact → RemoteProfile → String → String
  pub success : LocalFirstPendingArtifact → RemoteProfile → StoredEvidenceObject → String

pub record Database : Type 0 where
  pub artifacts : List EvidenceArtifact
  pub incidents : Dict ℕ Incident
  pub attempts : Dict ℕ LocalFirstSyncAttempt
  pub ledger : Table
  -- How often the clock was read.
  pub ticks : ℕ

abbrev pub is_upload_pending : EvidenceArtifactStatus → Bool
is_upload_pending upload_pending = true
is_upload_pending available = false
is_upload_pending local_only = false
is_upload_pending remote_available = false
is_upload_pending quota_exceeded = false
is_upload_pending capture_failed = false
is_upload_pending expired = false

abbrev is_local : EvidenceStorageProvider → Bool
is_local local_filesystem = true
is_local minio = false
is_local s3_compatible = false

abbrev is_edge : EvidenceStorageScope → Bool
is_edge edge = true
is_edge central = false
is_edge cloud = false

abbrev pub is_pending : ℕ → EvidenceArtifact → Bool
is_pending tenant_id row =
    row.tenant_id == tenant_id
    && is_upload_pending row.status
    && is_local row.provider
    && is_edge row.scope

abbrev pub created_before : EvidenceArtifact → EvidenceArtifact → Bool
created_before a b = ltb a.created_at b.created_at

abbrev pub pending_of : EvidenceArtifact → LocalFirstPendingArtifact
pending_of row = record {
  tenant_id = row.tenant_id;
  incident_id = row.incident_id;
  camera_id = row.camera_id;
  artifact_id = row.id;
  object_key = row.object_key;
  content_type = row.content_type;
  sha256 = row.sha256;
  size_bytes = row.size_bytes;
}

unfoldable pub list_pending : Database → ℕ → ℕ → List LocalFirstPendingArtifact
list_pending db tenant_id limit =
    map pending_of (take limit (sorted created_before (keep (is_pending tenant_id) db.artifacts)))

abbrev or_profile : Option ℕ → Option ℕ → Option ℕ
or_profile none old = old
or_profile (some profile_id) old = some profile_id

unfoldable pub get_or_create_attempt :
    Database → LocalFirstPendingArtifact → Option ℕ → LocalFirstSyncAttempt
get_or_create_attempt db artifact remote_profile_id =
    elim (lookup artifact.artifact_id db.attempts) [
      | none ↦ record {
        tenant_id = artifact.tenant_id;
        remote_profile_id = remote_profile_id;
        attempt_count = 0;
        latest_status = pending;
        latest_error = none;
        last_attempted_at = none;
        completed_at = none;
      }
      | some attempt ↦ record attempt {
        remote_profile_id = or_profile remote_profile_id attempt.remote_profile_id;
      }
    ]

abbrev save_attempt : Database → LocalFirstPendingArtifact → LocalFirstSyncAttempt → Database
save_attempt db artifact attempt = record db {
  attempts = insert artifact.artifact_id attempt db.attempts;
}

unfoldable pub mark_upload_started : Database → LocalFirstPendingArtifact → Option ℕ → ℕ → Database
unfolding get_or_create_attempt
mark_upload_started db artifact remote_profile_id attempted_at =
    let attempt = get_or_create_attempt db artifact remote_profile_id in
    save_attempt db artifact (record attempt {
      attempt_count = attempt.attempt_count + 1;
      latest_status = uploading;
      latest_error = none;
      last_attempted_at = some attempted_at;
      completed_at = none;
    })

unfoldable pub mark_upload_failed : Database → LocalFirstPendingArtifact → String → ℕ → Database
unfolding get_or_create_attempt
mark_upload_failed db artifact err attempted_at =
    let attempt = get_or_create_attempt db artifact none in
    save_attempt db artifact (record attempt {
      latest_status = failed;
      latest_error = some err;
      last_attempted_at = some attempted_at;
      completed_at = none;
    })

abbrev pub moved_to : StoredEvidenceObject → EvidenceArtifact → EvidenceArtifact
moved_to object row = record row {
  status = remote_available;
  provider = object.provider;
  scope = object.scope;
  bucket = object.bucket;
  object_key = object.object_key;
  content_type = object.content_type;
  sha256 = object.sha256;
  size_bytes = object.size_bytes;
}

unfoldable pub move_row : ℕ → StoredEvidenceObject → List EvidenceArtifact → List EvidenceArtifact
move_row artifact_id object [] = []
move_row artifact_id object (row ∷ rows) =
    (if row.id == artifact_id then moved_to object row else row) ∷ move_row artifact_id object rows

unfoldable pub has_row : ℕ → List EvidenceArtifact → Bool
has_row artifact_id [] = false
has_row artifact_id (row ∷ rows) = if row.id == artifact_id then true else has_row artifact_id rows

unfoldable pub move_incident : ℕ → StoredEvidenceObject → Dict ℕ Incident → Dict ℕ Incident
move_incident incident_id object incidents = elim (lookup incident_id incidents) [
  | none ↦ incidents
  | some incident ↦
      insert incident_id
        (record { clip_url = object.review_url; storage_bytes = object.size_bytes }) incidents
]

unfoldable pub mark_upload_available :
    Database → LocalFirstPendingArtifact → StoredEvidenceObject → ℕ → Database
unfolding get_or_create_attempt move_row has_row move_incident
mark_upload_available db artifact object completed_at =
    let attempt = get_or_create_attempt db artifact none in
    if has_row artifact.artifact_id db.artifacts
    then record db {
      artifacts = move_row artifact.artifact_id object db.artifacts;
      incidents = move_incident artifact.incident_id object db.incidents;
      attempts =
          insert artifact.artifact_id
            (record attempt {
              latest_status = uploaded;
              latest_error = none;
              completed_at = some completed_at;
            })
            db.attempts;
    }
    else db
