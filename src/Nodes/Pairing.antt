-- ===== src/Nodes/Pairing.antt =====
-- Pairing sessions: `create_pairing_session`, `get_pairing_session` and `claim_pairing_session`.
use vision.Common.{
  ℕ, ◌+◌, ◌*◌, String, Bool, true, false, Option, none, some, List, [], ◌∷◌, ◌++◌, ◌⊎◌, inl, inr,
  ltb, ◌==◌, ◌&&◌, if◌then◌else◌, compare_nat, compare_string,
}
use vision.Nodes.{
  Registry, Refusal, session_not_found, already_consumed, session_expired, invalid_code,
  edge_node_out_of_scope, DeploymentNodeKind, DeploymentNode, installed, active, NodePairingSession,
  PairingStatus, pending, expired, consumed, SupervisorNodeCredential, DeploymentCredentialEvent,
  credential_issued, update_node, load_node_by_supervisor,
}

pub record NodePairingSessionCreate : Type 0 where
  pub node_kind : DeploymentNodeKind
  pub edge_node_id : Option ℕ
  pub hostname : String
  pub requested_ttl_seconds : ℕ

pub record NodePairingClaim : Type 0 where
  pub pairing_code : String
  pub supervisor_id : String
  pub hostname : String

-- What a call draws anew.
pub record Drawn : Type 0 where
  pub node_id : ℕ
  pub credential_id : ℕ
  pub secret : String

abbrev pub is_in_scope : (ℕ → ℕ → Bool) → ℕ → Option ℕ → Bool
is_in_scope has_edge_node tenant_id none = true
is_in_scope has_edge_node tenant_id (some edge_node_id) = has_edge_node tenant_id edge_node_id

-- `has_edge_node` says whether a site of the tenant has the edge node.
unfoldable pub create_pairing_session :
    (String → String)
    → (ℕ → ℕ → Bool)
    → Registry
    → ℕ
    → NodePairingSessionCreate
    → Option String
    → ℕ
    → String
    → ℕ
    → (Refusal ⊎ NodePairingSession) × Registry
create_pairing_session hash has_edge_node db tenant_id payload actor_subject id code now =
    let row : NodePairingSession = record {
      id = id;
      tenant_id = tenant_id;
      deployment_node_id = none;
      edge_node_id = payload.edge_node_id;
      node_kind = payload.node_kind;
      hostname = payload.hostname;
      pairing_code_hash = hash code;
      status = pending;
      expires_at = now + payload.requested_ttl_seconds * 1000000;
      consumed_at = none;
      claimed_by_supervisor = none;
      created_by_subject = actor_subject;
      updated_at = now;
    } in
    if is_in_scope has_edge_node tenant_id payload.edge_node_id
    then (inr row, record db { sessions = row ∷ db.sessions })
    else (inl edge_node_out_of_scope, db)

abbrev pub is_of_tenant : Option ℕ → ℕ → Bool
is_of_tenant none owner = true
is_of_tenant (some tenant_id) owner = owner == tenant_id

unfoldable pub load_pairing_session :
    List NodePairingSession → Option ℕ → ℕ → Option NodePairingSession
load_pairing_session [] tenant_id session_id = none
load_pairing_session (row ∷ rows) tenant_id session_id =
    if row.id == session_id && is_of_tenant tenant_id row.tenant_id
    then some row
    else load_pairing_session rows tenant_id session_id

unfoldable pub update_session :
    ℕ
    → (NodePairingSession → NodePairingSession)
    → List NodePairingSession
    → List NodePairingSession
update_session id change [] = []
update_session id change (row ∷ rows) =
    (if row.id == id then change row else row) ∷ update_session id change rows

abbrev pub is_consumed : PairingStatus → Bool
is_consumed consumed = true
is_consumed pending = false
is_consumed expired = false

unfoldable pub pairing_status : NodePairingSession → ℕ → PairingStatus
pairing_status row now = elim row.status [
  | pending ↦ if ltb row.expires_at now then expired else pending
  | expired ↦ expired
  | consumed ↦ consumed
]

abbrev pub expire : NodePairingSession → NodePairingSession
expire row = record row { status = expired }

abbrev pub consume : ℕ → String → ℕ → NodePairingSession → NodePairingSession
consume node_id supervisor_id now row = record row {
  deployment_node_id = some node_id;
  status = consumed;
  consumed_at = some now;
  claimed_by_supervisor = some supervisor_id;
  updated_at = now;
}

abbrev pub paired : NodePairingSession → NodePairingClaim → ℕ → DeploymentNode → DeploymentNode
paired pairing payload now node = record node {
  edge_node_id = pairing.edge_node_id;
  node_kind = pairing.node_kind;
  hostname = payload.hostname;
  install_status = installed;
  credential_status = active;
  updated_at = now;
}

abbrev new_node : NodePairingSession → NodePairingClaim → ℕ → ℕ → DeploymentNode
new_node pairing payload id now = record {
  id = id;
  tenant_id = pairing.tenant_id;
  edge_node_id = pairing.edge_node_id;
  supervisor_id = payload.supervisor_id;
  node_kind = pairing.node_kind;
  hostname = payload.hostname;
  install_status = installed;
  credential_status = active;
  updated_at = now;
}

-- The id of the node that is paired, and the nodes afterwards.
unfoldable pub pair_node :
    List DeploymentNode → NodePairingSession → NodePairingClaim → ℕ → ℕ → ℕ × List DeploymentNode
unfolding load_node_by_supervisor update_node
pair_node nodes pairing payload id now =
    elim (load_node_by_supervisor nodes pairing.tenant_id payload.supervisor_id) [
      | none ↦ (id, new_node pairing payload id now ∷ nodes)
      | some node ↦ (node.id, update_node node.id (paired pairing payload now) nodes)
    ]

unfoldable pub claimed_with :
    (String → String)
    → Registry
    → NodePairingSession
    → NodePairingClaim
    → Drawn
    → ℕ
    → SupervisorNodeCredential × Registry
unfolding pair_node update_session
claimed_with hash db pairing payload drawn now =
    let (node_id, nodes) = pair_node db.nodes pairing payload drawn.node_id now in
    let credential : SupervisorNodeCredential = record {
      id = drawn.credential_id;
      tenant_id = pairing.tenant_id;
      deployment_node_id = node_id;
      supervisor_id = payload.supervisor_id;
      credential_hash = hash drawn.secret;
      credential_version = 1;
      status = active;
      issued_at = now;
      revoked_at = none;
      updated_at = now;
    } in
    let event : DeploymentCredentialEvent = record {
      tenant_id = pairing.tenant_id;
      deployment_node_id = node_id;
      credential_id = drawn.credential_id;
      event_type = credential_issued;
      actor_subject = some payload.supervisor_id;
      occurred_at = now;
    } in
    (
      credential,
      record {
        sessions =
            update_session pairing.id (consume node_id payload.supervisor_id now) db.sessions;
        nodes = nodes;
        credentials = credential ∷ db.credentials;
        events = db.events ++ event ∷ [];
      },
    )

abbrev pub succeed :
    SupervisorNodeCredential × Registry → (Refusal ⊎ SupervisorNodeCredential) × Registry
succeed (credential, db) = (inr credential, db)

unfoldable pub claim_pairing_session :
    (String → String)
    → Registry
    → Option ℕ
    → ℕ
    → NodePairingClaim
    → Drawn
    → ℕ
    → (Refusal ⊎ SupervisorNodeCredential) × Registry
unfolding load_pairing_session claimed_with
claim_pairing_session hash db tenant_id session_id payload drawn now =
    elim (load_pairing_session db.sessions tenant_id session_id) [
      | none ↦ (inl session_not_found, db)
      | some pairing ↦
          if is_consumed pairing.status
          then (inl already_consumed, db)
          else if ltb pairing.expires_at now
          then (
            inl session_expired,
            record db { sessions = update_session pairing.id expire db.sessions },
          )
          else if pairing.pairing_code_hash == hash payload.pairing_code
          then succeed (claimed_with hash db pairing payload drawn now)
          else (inl invalid_code, db)
    ]
