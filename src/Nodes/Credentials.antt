-- ===== src/Nodes/Credentials.antt =====
-- The credentials of a node: rotation, revocation and authentication.
use vision.Common.{
  ℕ, ◌+◌, String, Bool, true, not, Option, none, some, List, [], ◌∷◌, ◌++◌, map, length, keep, any,
  max, ◌⊎◌, inl, inr, ◌==◌, ◌&&◌, if◌then◌else◌, compare_nat, compare_string,
}
use vision.Nodes.{
  Registry, Refusal, node_not_found, DeploymentNode, active, revoked, is_active, is_revoked,
  is_revoked_install, installed, revoked_install, SupervisorNodeCredential,
  DeploymentCredentialEvent, EventType, credential_issued, credential_revoked, credential_rotated,
  update_node, get_node, load_node_by_id, load_node_by_edge_node,
}
use vision.Nodes.Pairing.{Drawn}

abbrev pub is_owned : ℕ → ℕ → SupervisorNodeCredential → Bool
is_owned tenant_id node_id row = row.tenant_id == tenant_id && row.deployment_node_id == node_id

-- A credential that a rotation or a revocation ends.
abbrev pub is_ended : ℕ → ℕ → SupervisorNodeCredential → Bool
is_ended tenant_id node_id row = is_owned tenant_id node_id row && not (is_revoked row.status)

abbrev pub revoke : ℕ → SupervisorNodeCredential → SupervisorNodeCredential
revoke now row = record row { status = revoked; revoked_at = some now; updated_at = now }

unfoldable pub revoke_owned :
    ℕ → ℕ → ℕ → List SupervisorNodeCredential → List SupervisorNodeCredential
revoke_owned tenant_id node_id now [] = []
revoke_owned tenant_id node_id now (row ∷ rows) =
    (if is_ended tenant_id node_id row then revoke now row else row)
    ∷ revoke_owned tenant_id node_id now rows

-- `credential.credential_version or 1`
abbrev pub version_of : SupervisorNodeCredential → ℕ
version_of row = if row.credential_version == 0 then 1 else row.credential_version

unfoldable pub last_version : List SupervisorNodeCredential → ℕ
last_version [] = 0
last_version (row ∷ rows) = max (version_of row) (last_version rows)

unfoldable pub next_credential_version : List SupervisorNodeCredential → ℕ
unfolding last_version
next_credential_version credentials = last_version credentials + 1

abbrev pub event_of :
    EventType → Option String → ℕ → SupervisorNodeCredential → DeploymentCredentialEvent
event_of event_type actor_subject now row = record {
  tenant_id = row.tenant_id;
  deployment_node_id = row.deployment_node_id;
  credential_id = row.id;
  event_type = event_type;
  actor_subject = actor_subject;
  occurred_at = now;
}

abbrev pub rotated : ℕ → DeploymentNode → DeploymentNode
rotated now node = record node {
  credential_status = active;
  install_status =
      if is_revoked_install node.install_status then installed else node.install_status;
  updated_at = now;
}

pub record Rotation : Type 0 where
  pub credential : SupervisorNodeCredential
  pub revoked_credentials : ℕ

unfoldable pub rotate_node :
    (String → String) → Registry → DeploymentNode → Option String → Drawn → ℕ → Rotation × Registry
unfolding next_credential_version revoke_owned update_node
rotate_node hash db node actor_subject drawn now =
    let tenant_id = node.tenant_id in
    let ended = keep (is_ended tenant_id node.id) db.credentials in
    let version = next_credential_version (keep (is_owned tenant_id node.id) db.credentials) in
    let row : SupervisorNodeCredential = record {
      id = drawn.credential_id;
      tenant_id = tenant_id;
      deployment_node_id = node.id;
      supervisor_id = node.supervisor_id;
      credential_hash = hash drawn.secret;
      credential_version = version;
      status = active;
      issued_at = now;
      revoked_at = none;
      updated_at = now;
    } in
    (
      record { credential = row; revoked_credentials = length ended },
      record db {
        nodes = update_node node.id (rotated now) db.nodes;
        credentials = row ∷ revoke_owned tenant_id node.id now db.credentials;
        events =
            db.events
            ++ map (event_of credential_revoked actor_subject now) ended
            ++ event_of credential_issued actor_subject now row
              ∷ event_of credential_rotated actor_subject now row
              ∷ [];
      },
    )

abbrev pub succeed_rotation : Rotation × Registry → (Refusal ⊎ Rotation) × Registry
succeed_rotation (rotation, db) = (inr rotation, db)

unfoldable pub rotate_node_credentials :
    (String → String)
    → Registry
    → ℕ
    → ℕ
    → Option String
    → Drawn
    → ℕ
    → (Refusal ⊎ Rotation) × Registry
unfolding load_node_by_id rotate_node
rotate_node_credentials hash db tenant_id node_id actor_subject drawn now =
    elim (load_node_by_id db.nodes tenant_id node_id) [
      | none ↦ (inl node_not_found, db)
      | some node ↦ succeed_rotation (rotate_node hash db node actor_subject drawn now)
    ]

unfoldable pub rotate_edge_node_credentials :
    (String → String)
    → Registry
    → ℕ
    → ℕ
    → Option String
    → Drawn
    → ℕ
    → (Refusal ⊎ Rotation) × Registry
unfolding load_node_by_edge_node rotate_node_credentials
rotate_edge_node_credentials hash db tenant_id edge_node_id actor_subject drawn now =
    elim (load_node_by_edge_node db.nodes tenant_id edge_node_id) [
      | none ↦ (inl node_not_found, db)
      | some node ↦ rotate_node_credentials hash db tenant_id node.id actor_subject drawn now
    ]

abbrev pub revoked_node : ℕ → DeploymentNode → DeploymentNode
revoked_node now node = record node {
  credential_status = revoked;
  install_status = revoked_install;
  updated_at = now;
}

-- It answers the number of the credentials that it revoked.
unfoldable pub revoke_node_credentials :
    Registry → ℕ → ℕ → Option String → ℕ → (Refusal ⊎ ℕ) × Registry
unfolding load_node_by_id revoke_owned update_node
revoke_node_credentials db tenant_id node_id actor_subject now =
    let ended = keep (is_ended tenant_id node_id) db.credentials in
    elim (load_node_by_id db.nodes tenant_id node_id) [
      | none ↦ (inl node_not_found, db)
      | some node ↦ (
        inr (length ended),
        record db {
          nodes = update_node node.id (revoked_node now) db.nodes;
          credentials = revoke_owned tenant_id node_id now db.credentials;
          events = db.events ++ map (event_of credential_revoked actor_subject now) ended;
        },
      )
    ]

unfoldable pub validate_supervisor_credential :
    (String → String) → Registry → ℕ → String → String → Bool
validate_supervisor_credential hash db tenant_id supervisor_id material =
    any (λ row. row.credential_hash == hash material && is_active row.status)
      (keep (λ row. row.tenant_id == tenant_id && row.supervisor_id == supervisor_id)
        db.credentials)

pub record TenantContext : Type 0 where
  pub tenant_id : ℕ
  pub tenant_slug : String
  -- The subject is `supervisor:` and this.
  pub supervisor_id : String
  pub deployment_node_id : ℕ

abbrev pub is_by_supervisor : Option String → SupervisorNodeCredential → Bool
is_by_supervisor none row = true
is_by_supervisor (some supervisor_id) row = row.supervisor_id == supervisor_id

abbrev pub slug_context :
    SupervisorNodeCredential → DeploymentNode → Option String → Option TenantContext
slug_context row node none = none
slug_context row node (some slug) = some (record {
  tenant_id = row.tenant_id;
  tenant_slug = slug;
  supervisor_id = row.supervisor_id;
  deployment_node_id = node.id;
})

abbrev pub node_context :
    (ℕ → Option String) → SupervisorNodeCredential → Option DeploymentNode → Option TenantContext
node_context tenant_slug row none = none
node_context tenant_slug row (some node) =
    if is_active node.credential_status
    then slug_context row node (tenant_slug row.tenant_id)
    else none

-- The context that one credential of the loop gives, if the loop does not go on.
unfoldable pub context_of :
    (ℕ → Option String) → List DeploymentNode → SupervisorNodeCredential → Option TenantContext
unfolding get_node
context_of tenant_slug nodes row =
    node_context tenant_slug row (get_node nodes row.deployment_node_id)

abbrev pub or_context : Option TenantContext → Option TenantContext → Option TenantContext
or_context none later = later
or_context (some context) later = some context

unfoldable pub first_context :
    (ℕ → Option String) → List DeploymentNode → List SupervisorNodeCredential → Option TenantContext
unfolding context_of
first_context tenant_slug nodes [] = none
first_context tenant_slug nodes (row ∷ rows) =
    or_context (context_of tenant_slug nodes row) (first_context tenant_slug nodes rows)

-- `tenant_slug` is the table of tenants; `none` is the ValueError.
unfoldable pub authenticate_supervisor_credential :
    (String → String)
    → (ℕ → Option String)
    → Registry
    → String
    → Option String
    → Option TenantContext
unfolding first_context
authenticate_supervisor_credential hash tenant_slug db material supervisor_id =
    first_context tenant_slug db.nodes (
      keep
        (λ row.
          row.credential_hash == hash material
          && is_active row.status
          && is_by_supervisor supervisor_id row)
        db.credentials)
