-- ===== src/Nodes/Rotated.antt =====
-- What a rotation of a node's credentials leaves valid.
use vision.Common.{
  ℕ, ◌+◌, ◌<◌, ◌≤◌, ◌≡◌, ◌⊎◌, inl, inr, refl, String, true, false, not, Option, some, List, [], ◌∷◌,
  keep, any, All, All-imp, max, ◌&&◌, compare_nat, compare_string, arith, Bool-cases, nat_beq_iff,
  eq_iff,
}
use vision.Nodes.{
  Registry, DeploymentNode, SupervisorNodeCredential, DeploymentCredentialStatus, missing,
  pending_credential, active, expired_credential, revoked, is_active, is_revoked, load_node_by_id,
}
use vision.Nodes.Pairing.{Drawn}
use vision.Nodes.Credentials.{
  is_owned, revoke_owned, version_of, last_version, next_credential_version, Rotation, rotate_node,
  rotate_node_credentials, validate_supervisor_credential,
}

-- The credentials of a node that are active.
abbrev pub active_of : ℕ → ℕ → List SupervisorNodeCredential → List SupervisorNodeCredential
active_of tenant_id node_id rows =
    keep (λ row. is_owned tenant_id node_id row && is_active row.status) rows

active-not_revoked : (s : DeploymentCredentialStatus) → is_revoked s ≡ true → is_active s ≡ false
active-not_revoked missing h = refl
active-not_revoked pending_credential h = refl
active-not_revoked active h = cc
active-not_revoked expired_credential h = refl
active-not_revoked revoked h = refl

revoke_owned-active :
    (t n now : ℕ) (rows : List SupervisorNodeCredential)
    → active_of t n (revoke_owned t n now rows) ≡ []
unfolding revoke_owned keep
revoke_owned-active t n now [] = refl
revoke_owned-active t n now (row ∷ rows) =
    ground (arith, active-not_revoked row.status, revoke_owned-active t n now rows)

revoke_owned-others :
    (t n now : ℕ) (rows : List SupervisorNodeCredential)
    → keep (λ row. not (is_owned t n row)) (revoke_owned t n now rows)
      ≡ keep (λ row. not (is_owned t n row)) rows
unfolding revoke_owned keep
revoke_owned-others t n now [] = refl
revoke_owned-others t n now (row ∷ rows) = ground (arith, revoke_owned-others t n now rows)

last_version-bound :
    (t n m : ℕ) (rows : List SupervisorNodeCredential)
    → last_version (keep (is_owned t n) rows) ≤ m
    → All (λ row. (is_owned t n row ≡ false) ⊎ (row.credential_version ≤ m)) rows
unfolding last_version keep
last_version-bound t n m [] h = tt
last_version-bound t n m (row ∷ rows) h = elim (Bool-cases (is_owned t n row)) [
  | inl e ↦
      let both : max (version_of row) (last_version (keep (is_owned t n) rows)) ≤ m =
        ground (arith, e, h) in
      (inr (ground (arith, both)), last_version-bound t n m rows (omega (arith, both)))
  | inr e ↦ (inl e, last_version-bound t n m rows (ground (arith, e, h)))
]

-- What a rotation of a node leaves: the new credential is the node's only active one, of a higher
-- version than all its old ones; the other nodes' credentials are as they were; and the new secret
-- is valid for the node's supervisor.
pub record IsRotated (hash : String → String) (db db' : Registry) (node : DeploymentNode)
    (secret : String) (row : SupervisorNodeCredential) : Type 0 where
  pub only : active_of node.tenant_id node.id db'.credentials ≡ row ∷ []
  pub newer :
      All
        (λ old.
          (is_owned node.tenant_id node.id old ≡ false)
          ⊎ (old.credential_version < row.credential_version))
        db.credentials
  pub others :
      keep (λ x. not (is_owned node.tenant_id node.id x)) db'.credentials
      ≡ keep (λ x. not (is_owned node.tenant_id node.id x)) db.credentials
  pub valid :
      validate_supervisor_credential hash db' node.tenant_id node.supervisor_id secret ≡ true

rotate_node-IsRotated :
    (hash : String → String) (db : Registry) (node : DeploymentNode) (subject : Option String)
    (drawn : Drawn) (now : ℕ)
    → let (rotation, db') = rotate_node hash db node subject drawn now in
      IsRotated hash db db' node drawn.secret rotation.credential
unfolding rotate_node validate_supervisor_credential next_credential_version
rotate_node-IsRotated hash db node subject drawn now =
    let t = node.tenant_id in
    let none_active = revoke_owned-active t node.id now db.credentials in
    let same_tenant = (nat_beq_iff t t).1 refl in
    let same_node = (nat_beq_iff node.id node.id).1 refl in
    let same_supervisor = (eq_iff node.supervisor_id node.supervisor_id).1 refl in
    let same_hash = (eq_iff (hash drawn.secret) (hash drawn.secret)).1 refl in
    let version = last_version (keep (is_owned t node.id) db.credentials) in
    record {
      only = unfold keep in ground (arith, none_active, same_tenant, same_node);
      newer =
          All-imp (λ old. (is_owned t node.id old ≡ false) ⊎ (old.credential_version ≤ version))
            (λ old. (is_owned t node.id old ≡ false) ⊎ (old.credential_version < version + 1))
            db.credentials
            (λ old h. elim h [ inl out ↦ inl out | inr le ↦ inr (omega (arith, le)) ])
            (last_version-bound t node.id version db.credentials (omega arith));
      others =
          unfold keep in
          ground (arith, same_tenant, same_node, revoke_owned-others t node.id now db.credentials);
      valid = unfold keep in unfold any in ground (arith, same_tenant, same_supervisor, same_hash);
    }

-- A rotation of a node that the tenant has succeeds: its new credential is the node's only active one,
-- of a higher version than its old ones, and valid for its supervisor; no other node's credential
-- changes.
pub rotate_node_credentials-IsRotated :
    (hash : String → String) (db : Registry) (tenant_id node_id : ℕ) (subject : Option String)
    (drawn : Drawn) (now : ℕ) (node : DeploymentNode)
    → load_node_by_id db.nodes tenant_id node_id ≡ some node
    → let (reply, db') = rotate_node_credentials hash db tenant_id node_id subject drawn now in
      (rotation : Rotation) × (reply ≡ inr rotation)
      × IsRotated hash db db' node drawn.secret rotation.credential
unfolding rotate_node_credentials
rotate_node_credentials-IsRotated hash db tenant_id node_id subject drawn now node loaded =
    rw (loaded, rotate_node_credentials)
      (
        (rotate_node hash db node subject drawn now).0,
        refl,
        rotate_node-IsRotated hash db node subject drawn now,
      )
