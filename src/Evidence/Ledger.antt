-- ===== src/Evidence/Ledger.antt =====
-- backend/src/argus/services/evidence_ledger.py: the chained log of an incident. A table is its rows,
-- the newest first; one transaction runs after the other. `digest` is SHA-256 of the canonical JSON
-- text of the hashed fields. A payload is its canonical JSON text, a time is microseconds.
pub mod Chain
pub mod Agreement
use vision.Common.{
  ℕ, ◌+◌, String, Bool, Option, none, some, List, [], ◌∷◌, length, keep, sorted, ltb, ◌==◌,
  compare_nat,
}

pub data EvidenceLedgerAction : Type 0 where
  incident_triggered scene_contract_attached privacy_manifest_attached : EvidenceLedgerAction
  clip_capture_started clip_available clip_quota_exceeded clip_capture_failed : EvidenceLedgerAction
  snapshot_available snapshot_quota_exceeded snapshot_capture_failed : EvidenceLedgerAction
  incident_rule_attached evidence_expired : EvidenceLedgerAction
  evidence_upload_started evidence_upload_available evidence_upload_failed : EvidenceLedgerAction
  incident_reviewed incident_reopened : EvidenceLedgerAction

-- `hash_input`
pub record HashInput : Type 0 where
  pub incident_id : ℕ
  pub sequence : ℕ
  pub action : EvidenceLedgerAction
  pub occurred_at : ℕ
  pub actor_type : String
  pub actor_subject : Option String
  pub payload : String
  pub previous_entry_hash : Option String

pub record EvidenceLedgerEntry : Type 0 where
  pub tenant_id : ℕ
  pub incident_id : ℕ
  pub camera_id : ℕ
  pub sequence : ℕ
  pub action : EvidenceLedgerAction
  pub actor_type : String
  pub actor_subject : Option String
  pub occurred_at : ℕ
  pub payload : String
  pub previous_entry_hash : Option String
  pub entry_hash : String

-- What a caller of `append_entry` gives.
pub record AppendRequest : Type 0 where
  pub tenant_id : ℕ
  pub incident_id : ℕ
  pub camera_id : ℕ
  pub action : EvidenceLedgerAction
  pub actor_type : String
  pub actor_subject : Option String
  pub occurred_at : Option ℕ
  pub payload : String

pub record EvidenceLedgerSummary : Type 0 where
  pub entry_count : ℕ
  pub latest_action : Option EvidenceLedgerAction
  pub latest_at : Option ℕ

abbrev pub Table : Type 0
Table = List EvidenceLedgerEntry

abbrev pub is_of : ℕ → EvidenceLedgerEntry → Bool
is_of incident_id entry = entry.incident_id == incident_id

-- Before in descending, and in ascending order of the sequence.
abbrev pub is_later : EvidenceLedgerEntry → EvidenceLedgerEntry → Bool
is_later a b = ltb b.sequence a.sequence

abbrev pub is_earlier : EvidenceLedgerEntry → EvidenceLedgerEntry → Bool
is_earlier a b = ltb a.sequence b.sequence

abbrev pub first_of : Table → Option EvidenceLedgerEntry
first_of [] = none
first_of (entry ∷ rest) = some entry

unfoldable pub load_latest_entry : Table → ℕ → Option EvidenceLedgerEntry
load_latest_entry table incident_id = first_of (sorted is_later (keep (is_of incident_id) table))

unfoldable pub list_for_incident : Table → ℕ → List EvidenceLedgerEntry
list_for_incident table incident_id = sorted is_earlier (keep (is_of incident_id) table)

abbrev pub next_sequence : Option EvidenceLedgerEntry → ℕ
next_sequence none = 1
next_sequence (some previous) = previous.sequence + 1

abbrev pub hash_of : Option EvidenceLedgerEntry → Option String
hash_of none = none
hash_of (some previous) = some previous.entry_hash

abbrev pub or_now : Option ℕ → ℕ → ℕ
or_now none now = now
or_now (some at) now = at

module _ (digest : HashInput → String) where
  unfoldable pub input_for : AppendRequest → ℕ → Option EvidenceLedgerEntry → HashInput
  input_for request now previous = record {
    incident_id = request.incident_id;
    sequence = next_sequence previous;
    action = request.action;
    occurred_at = or_now request.occurred_at now;
    actor_type = request.actor_type;
    actor_subject = request.actor_subject;
    payload = request.payload;
    previous_entry_hash = hash_of previous;
  }

  unfoldable pub entry_after : AppendRequest → ℕ → Option EvidenceLedgerEntry → EvidenceLedgerEntry
  unfolding input_for
  entry_after request now previous = record {
    tenant_id = request.tenant_id;
    incident_id = request.incident_id;
    camera_id = request.camera_id;
    sequence = next_sequence previous;
    action = request.action;
    actor_type = request.actor_type;
    actor_subject = request.actor_subject;
    occurred_at = or_now request.occurred_at now;
    payload = request.payload;
    previous_entry_hash = hash_of previous;
    entry_hash = digest (input_for request now previous);
  }

  unfoldable pub append_entry : Table → AppendRequest → ℕ → EvidenceLedgerEntry × Table
  unfolding entry_after
  append_entry table request now =
      let entry = entry_after request now (load_latest_entry table request.incident_id) in
      (entry, entry ∷ table)

-- The last of a list, given one before it.
abbrev pub last_of : EvidenceLedgerEntry → List EvidenceLedgerEntry → EvidenceLedgerEntry
last_of entry [] = entry
last_of entry (next ∷ rest) = last_of next rest

unfoldable pub summary_of : List EvidenceLedgerEntry → EvidenceLedgerSummary
summary_of [] = record { entry_count = 0; latest_action = none; latest_at = none }
summary_of (entry ∷ rest) = record {
  entry_count = length (entry ∷ rest);
  latest_action = some (last_of entry rest).action;
  latest_at = some (last_of entry rest).occurred_at;
}

unfoldable pub summary_for_incident : Table → ℕ → EvidenceLedgerSummary
unfolding summary_of
summary_for_incident table incident_id = summary_of (list_for_incident table incident_id)
