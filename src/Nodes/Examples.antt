-- ===== src/Nodes/Examples.antt =====
-- The theorems of nodes and their credentials at concrete inputs. The hash leaves a text as it is.
use vision.Common.{◌≡◌, refl, String, true, none, some, [], ◌∷◌, inl, inr}
use vision.Nodes.{
  Registry, already_consumed, edge, active, installed, pending, DeploymentNode, NodePairingSession,
  SupervisorNodeCredential, load_node_by_id,
}
use vision.Nodes.Pairing.{NodePairingClaim, Drawn, load_pairing_session, claim_pairing_session}
use vision.Nodes.Credentials.{
  Rotation, rotate_node_credentials, revoke_node_credentials, validate_supervisor_credential,
  authenticate_supervisor_credential,
}
use vision.Nodes.Rotated.{IsRotated, rotate_node_credentials-IsRotated}
use vision.Nodes.Revoked.{IsOther, revoke-authenticate}
use vision.Nodes.Claimed.{IsIssued, claim_pairing_session-once}

abbrev session : NodePairingSession
session = record {
  id = 3;
  tenant_id = 1;
  deployment_node_id = none;
  edge_node_id = some 9;
  node_kind = edge;
  hostname = "host";
  pairing_code_hash = "code";
  status = pending;
  expires_at = 500;
  consumed_at = none;
  claimed_by_supervisor = none;
  created_by_subject = none;
  updated_at = 100;
}

abbrev paired_node : DeploymentNode
paired_node = record {
  id = 7;
  tenant_id = 1;
  edge_node_id = some 9;
  supervisor_id = "one";
  node_kind = edge;
  hostname = "host";
  install_status = installed;
  credential_status = active;
  updated_at = 100;
}

abbrev old_credential : SupervisorNodeCredential
old_credential = record {
  id = 11;
  tenant_id = 1;
  deployment_node_id = 7;
  supervisor_id = "one";
  credential_hash = "old";
  credential_version = 2;
  status = active;
  issued_at = 100;
  revoked_at = none;
  updated_at = 100;
}

abbrev registry : Registry
registry = record {
  sessions = session ∷ [];
  nodes = paired_node ∷ [];
  credentials = old_credential ∷ [];
  events = [];
}

abbrev plain : String → String
plain text = text

abbrev drawn : Drawn
drawn = record { node_id = 8; credential_id = 12; secret = "new" }

abbrev first_claim : NodePairingClaim
first_claim = record { pairing_code = "code"; supervisor_id = "two"; hostname = "host" }

claim_pairing_session-once_example :
    let (reply, db') = claim_pairing_session plain registry none 3 first_claim drawn 200 in
    ((credential : SupervisorNodeCredential) × (reply ≡ inr credential)
      × IsIssued plain session first_claim drawn credential
      × (db'.credentials ≡ credential ∷ registry.credentials))
    × (validate_supervisor_credential plain db' 1 "two" "new" ≡ true)
    × (claim_pairing_session plain db' none 3 first_claim drawn 300 ≡ (inl already_consumed, db'))
unfolding load_pairing_session
claim_pairing_session-once_example =
    claim_pairing_session-once plain registry none 3 first_claim drawn 200 session first_claim drawn
      300 refl refl refl refl

rotate_node_credentials-IsRotated_example :
    let (reply, db') = rotate_node_credentials plain registry 1 7 none drawn 200 in
    (rotation : Rotation) × (reply ≡ inr rotation)
    × IsRotated plain registry db' paired_node "new" rotation.credential
unfolding load_node_by_id
rotate_node_credentials-IsRotated_example =
    rotate_node_credentials-IsRotated plain registry 1 7 none drawn 200 paired_node refl

revoke-authenticate_example : IsOther 7 (
    authenticate_supervisor_credential plain
      (λ tenant_id. some "tenant")
      (revoke_node_credentials registry 1 7 none 200).1
      "old"
      none)
unfolding load_node_by_id
revoke-authenticate_example =
    revoke-authenticate plain registry 1 7 none 200 paired_node (λ tenant_id. some "tenant") "old"
      none refl
