-- ===== src/Nodes/Revoked.antt =====
-- After a revocation nobody acts as the node.
use vision.Common.{
  false≢true, ℕ, ◌≡◌, ◌≢◌, inl, inr, refl, ap, sym, ◌∙◌, subst, String, false, Option, none, some,
  List, [], ◌∷◌, keep, ◌==◌, ◌&&◌, if◌then◌else◌, compare_nat, compare_string, arith, Bool-cases,
  Option-cases, nat_beq_iff,
}
use vision.Nodes.{
  Registry, DeploymentNode, SupervisorNodeCredential, is_active, update_node, get_node,
  load_node_by_id,
}
use vision.Nodes.Credentials.{
  revoked_node, revoke_node_credentials, TenantContext, is_by_supervisor, slug_context,
  node_context, or_context, context_of, first_context, authenticate_supervisor_credential,
}

-- The context, if there is one, is that of another node.
abbrev pub IsOther : ℕ → Option TenantContext → Type 0
IsOther node_id none = Unit
IsOther node_id (some context) = context.deployment_node_id ≢ node_id

get-revoked_node :
    (n now i : ℕ) (nodes : List DeploymentNode) (node : DeploymentNode)
    → get_node (update_node n (revoked_node now) nodes) i ≡ some node
    → node.id ≡ n
    → is_active node.credential_status ≡ false
unfolding get_node update_node
get-revoked_node n now i [] node e same = cc
get-revoked_node n now i (x ∷ xs) node e same = elim (Bool-cases (x.id == n)) [
  | inl own ↦ elim (Bool-cases (x.id == i)) [
    | inl hit ↦
        let found : revoked_node now x ≡ node = ground (arith, own, hit, e) in
        subst (λ y. is_active y.credential_status ≡ false) found refl
    | inr miss ↦ get-revoked_node n now i xs node (ground (arith, own, miss, e)) same
  ]
  | inr other ↦ elim (Bool-cases (x.id == i)) [
    | inl hit ↦
        let found : x ≡ node = ground (arith, other, hit, e) in
        let is_own : x.id ≡ n = ap (λ y. y.id) found ∙ same in
        ground (arith, other, nat_beq_iff x.id n, is_own)
    | inr miss ↦ get-revoked_node n now i xs node (ground (arith, other, miss, e)) same
  ]
]

slug_context-IsOther :
    (n : ℕ) (row : SupervisorNodeCredential) (node : DeploymentNode) (slug : Option String)
    → node.id ≢ n
    → IsOther n (slug_context row node slug)
slug_context-IsOther n row node none apart = tt
slug_context-IsOther n row node (some slug) apart = apart

context_of-IsOther :
    (n now : ℕ) (tenant_slug : ℕ → Option String) (nodes : List DeploymentNode)
    (row : SupervisorNodeCredential)
    → IsOther n (context_of tenant_slug (update_node n (revoked_node now) nodes) row)
unfolding context_of
context_of-IsOther n now tenant_slug nodes row =
    let nodes' = update_node n (revoked_node now) nodes in
    elim (Option-cases (get_node nodes' row.deployment_node_id)) [
      | inl e ↦ subst (λ o. IsOther n (node_context tenant_slug row o)) (sym e) tt
      | inr (node, e) ↦
          subst (λ o. IsOther n (node_context tenant_slug row o)) (sym e)
            (elim (Bool-cases (is_active node.credential_status)) [
              | inl live ↦
                  subst
                    (λ b.
                      IsOther n
                        (if b then slug_context row node (tenant_slug row.tenant_id) else none))
                    (sym live)
                    (slug_context-IsOther n row node (tenant_slug row.tenant_id) (λ same.
                      false≢true (
                        sym (get-revoked_node n now row.deployment_node_id nodes node e same)
                        ∙ live)))
              | inr ended ↦
                  subst
                    (λ b.
                      IsOther n
                        (if b then slug_context row node (tenant_slug row.tenant_id) else none))
                    (sym ended) tt
            ])
    ]

or_context-IsOther :
    (n : ℕ) (first later : Option TenantContext)
    → IsOther n first
    → IsOther n later
    → IsOther n (or_context first later)
or_context-IsOther n none later h k = k
or_context-IsOther n (some context) later h k = h

first_context-IsOther :
    (n now : ℕ) (tenant_slug : ℕ → Option String) (nodes : List DeploymentNode)
    (rows : List SupervisorNodeCredential)
    → IsOther n (first_context tenant_slug (update_node n (revoked_node now) nodes) rows)
unfolding first_context
first_context-IsOther n now tenant_slug nodes [] = tt
first_context-IsOther n now tenant_slug nodes (row ∷ rows) =
    let nodes' = update_node n (revoked_node now) nodes in
    or_context-IsOther n (context_of tenant_slug nodes' row) (first_context tenant_slug nodes' rows)
      (context_of-IsOther n now tenant_slug nodes row)
      (first_context-IsOther n now tenant_slug nodes rows)

load-id :
    (nodes : List DeploymentNode) (t n : ℕ) (node : DeploymentNode)
    → load_node_by_id nodes t n ≡ some node
    → node.id ≡ n
unfolding load_node_by_id
load-id [] t n node e = cc
load-id (x ∷ xs) t n node e = elim (Bool-cases (x.tenant_id == t && x.id == n)) [
  | inl hit ↦
      let found : x ≡ node = ground (arith, hit, e) in
      subst (λ y. y.id ≡ n) found (ground (arith, hit, nat_beq_iff x.id n))
  | inr miss ↦ load-id xs t n node (ground (arith, miss, e))
]

revoked-nodes :
    (db : Registry) (t n : ℕ) (subject : Option String) (now : ℕ) (node : DeploymentNode)
    → load_node_by_id db.nodes t n ≡ some node
    → (revoke_node_credentials db t n subject now).1.nodes
      ≡ update_node node.id (revoked_node now) db.nodes
unfolding revoke_node_credentials
revoked-nodes db t n subject now node loaded = ground (arith, loaded)

-- After a revocation that succeeds, no secret authenticates as the node, whichever credentials there
-- are.
pub revoke-authenticate :
    (hash : String → String) (db : Registry) (tenant_id node_id : ℕ) (subject : Option String)
    (now : ℕ) (node : DeploymentNode) (tenant_slug : ℕ → Option String) (material : String)
    (supervisor_id : Option String)
    → load_node_by_id db.nodes tenant_id node_id ≡ some node
    → IsOther node_id (
        authenticate_supervisor_credential hash tenant_slug
          (revoke_node_credentials db tenant_id node_id subject now).1
          material
          supervisor_id)
unfolding revoke_node_credentials authenticate_supervisor_credential
revoke-authenticate hash db t n subject now node tenant_slug material supervisor_id loaded =
    let db' = (revoke_node_credentials db t n subject now).1 in
    let rows =
      keep
        (λ row.
          row.credential_hash == hash material
          && is_active row.status
          && is_by_supervisor supervisor_id row)
        db'.credentials in
    let nodes' : db'.nodes ≡ update_node n (revoked_node now) db.nodes =
      revoked-nodes db t n subject now node loaded
      ∙ ap (λ i. update_node i (revoked_node now) db.nodes) (load-id db.nodes t n node loaded) in
    subst (λ ns. IsOther n (first_context tenant_slug ns rows)) (sym nodes')
      (first_context-IsOther n now tenant_slug db.nodes rows)
