-- ===== src/Nodes.antt =====
-- backend/src/argus/services/deployment_nodes.py: the nodes of a tenant, the sessions that pair them,
-- and the credentials of their supervisors. The database is a record of tables, a call is one
-- transaction, and times are microseconds. `hash` is SHA-256; what a call draws anew (ids, codes,
-- secrets) is an argument. What nodes report of their services is left out of the rows.
pub mod Pairing
pub mod Credentials
pub mod Claimed
pub mod Rotated
pub mod Revoked
mod Examples
use vision.Common.{
  ℕ, ◌+◌, String, Bool, true, false, not, Option, none, some, List, [], ◌∷◌, ◌++◌, ◌==◌, ◌&&◌,
  if◌then◌else◌, max, compare_nat, compare_string, compare_option,
}

pub data DeploymentNodeKind : Type 0 where
  central edge : DeploymentNodeKind

pub data DeploymentInstallStatus : Type 0 where
  not_installed pairing_pending installed healthy degraded offline : DeploymentInstallStatus
  revoked_install : DeploymentInstallStatus

pub data DeploymentCredentialStatus : Type 0 where
  missing pending_credential active expired_credential revoked : DeploymentCredentialStatus

pub data PairingStatus : Type 0 where
  pending expired consumed : PairingStatus

pub record NodePairingSession : Type 0 where
  pub id : ℕ
  pub tenant_id : ℕ
  pub deployment_node_id : Option ℕ
  pub edge_node_id : Option ℕ
  pub node_kind : DeploymentNodeKind
  pub hostname : String
  pub pairing_code_hash : String
  pub status : PairingStatus
  pub expires_at : ℕ
  pub consumed_at : Option ℕ
  pub claimed_by_supervisor : Option String
  pub created_by_subject : Option String
  pub updated_at : ℕ

pub record DeploymentNode : Type 0 where
  pub id : ℕ
  pub tenant_id : ℕ
  pub edge_node_id : Option ℕ
  pub supervisor_id : String
  pub node_kind : DeploymentNodeKind
  pub hostname : String
  pub install_status : DeploymentInstallStatus
  pub credential_status : DeploymentCredentialStatus
  pub updated_at : ℕ

pub record SupervisorNodeCredential : Type 0 where
  pub id : ℕ
  pub tenant_id : ℕ
  pub deployment_node_id : ℕ
  pub supervisor_id : String
  pub credential_hash : String
  pub credential_version : ℕ
  pub status : DeploymentCredentialStatus
  pub issued_at : ℕ
  pub revoked_at : Option ℕ
  pub updated_at : ℕ

pub data EventType : Type 0 where
  credential_issued credential_revoked credential_rotated : EventType

pub record DeploymentCredentialEvent : Type 0 where
  pub tenant_id : ℕ
  pub deployment_node_id : ℕ
  pub credential_id : ℕ
  pub event_type : EventType
  pub actor_subject : Option String
  pub occurred_at : ℕ

pub record Registry : Type 0 where
  pub sessions : List NodePairingSession
  pub nodes : List DeploymentNode
  pub credentials : List SupervisorNodeCredential
  pub events : List DeploymentCredentialEvent

pub data Refusal : Type 0 where
  session_not_found already_consumed session_expired invalid_code : Refusal
  node_not_found edge_node_out_of_scope : Refusal

abbrev pub is_active : DeploymentCredentialStatus → Bool
is_active active = true
is_active missing = false
is_active pending_credential = false
is_active expired_credential = false
is_active revoked = false

abbrev pub is_revoked : DeploymentCredentialStatus → Bool
is_revoked revoked = true
is_revoked missing = false
is_revoked pending_credential = false
is_revoked expired_credential = false
is_revoked active = false

abbrev pub is_revoked_install : DeploymentInstallStatus → Bool
is_revoked_install revoked_install = true
is_revoked_install not_installed = false
is_revoked_install pairing_pending = false
is_revoked_install installed = false
is_revoked_install healthy = false
is_revoked_install degraded = false
is_revoked_install offline = false

-- The row with the id, changed.
unfoldable pub update_node :
    ℕ → (DeploymentNode → DeploymentNode) → List DeploymentNode → List DeploymentNode
update_node id change [] = []
update_node id change (node ∷ nodes) =
    (if node.id == id then change node else node) ∷ update_node id change nodes

-- `session.get(DeploymentNode, id)`
unfoldable pub get_node : List DeploymentNode → ℕ → Option DeploymentNode
get_node [] id = none
get_node (node ∷ nodes) id = if node.id == id then some node else get_node nodes id

unfoldable pub load_node_by_supervisor : List DeploymentNode → ℕ → String → Option DeploymentNode
load_node_by_supervisor [] tenant_id supervisor_id = none
load_node_by_supervisor (node ∷ nodes) tenant_id supervisor_id =
    if node.tenant_id == tenant_id && node.supervisor_id == supervisor_id
    then some node
    else load_node_by_supervisor nodes tenant_id supervisor_id

unfoldable pub load_node_by_id : List DeploymentNode → ℕ → ℕ → Option DeploymentNode
load_node_by_id [] tenant_id id = none
load_node_by_id (node ∷ nodes) tenant_id id =
    if node.tenant_id == tenant_id && node.id == id
    then some node
    else load_node_by_id nodes tenant_id id

unfoldable pub load_node_by_edge_node : List DeploymentNode → ℕ → ℕ → Option DeploymentNode
load_node_by_edge_node [] tenant_id edge_node_id = none
load_node_by_edge_node (node ∷ nodes) tenant_id edge_node_id =
    if node.tenant_id == tenant_id && node.edge_node_id == some edge_node_id
    then some node
    else load_node_by_edge_node nodes tenant_id edge_node_id
