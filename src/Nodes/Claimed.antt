-- ===== src/Nodes/Claimed.antt =====
-- A pairing session is consumed once.
use vision.Common.{
  ℕ, ◌≡◌, inl, inr, refl, ap, sym, ◌∙◌, subst, String, true, false, Option, some, List, [], ◌∷◌,
  keep, any, ◌==◌, ◌&&◌, compare_nat, compare_string, arith, Bool-cases, nat_beq_iff, eq_iff, ltb,
}
use vision.Nodes.{Registry, already_consumed, NodePairingSession, SupervisorNodeCredential, active}
use vision.Nodes.Pairing.{
  NodePairingClaim, Drawn, load_pairing_session, update_session, is_of_tenant, consume, is_consumed,
  claimed_with, claim_pairing_session, pair_node,
}
use vision.Nodes.Credentials.{validate_supervisor_credential}

load-update_session :
    (rows : List NodePairingSession) (tenant_id : Option ℕ) (session_id node_id now : ℕ)
    (supervisor_id : String) (pairing : NodePairingSession)
    → load_pairing_session rows tenant_id session_id ≡ some pairing
    → load_pairing_session
        (update_session pairing.id (consume node_id supervisor_id now) rows)
        tenant_id
        session_id
      ≡ some (consume node_id supervisor_id now pairing)
unfolding load_pairing_session update_session
load-update_session [] t s node_id now supervisor_id pairing e = cc
load-update_session (x ∷ xs) t s node_id now supervisor_id pairing e =
    elim (Bool-cases (x.id == s && is_of_tenant t x.tenant_id)) [
      | inl hit ↦
          let found : x ≡ pairing = ground (arith, hit, e) in
          let own : (x.id == pairing.id) ≡ true =
            (nat_beq_iff x.id pairing.id).1 (ap (λ y. y.id) found) in
          ground (arith, own, hit) ∙ ap (λ y. some (consume node_id supervisor_id now y)) found
      | inr miss ↦
          let rest =
            load-update_session xs t s node_id now supervisor_id pairing
              (ground (arith, miss, e)) in
          elim (Bool-cases (x.id == pairing.id)) [
            | inl own ↦ ground (arith, own, miss, rest)
            | inr other ↦ ground (arith, other, miss, rest)
          ]
    ]

claimed_with-sessions :
    (hash : String → String) (db : Registry) (pairing : NodePairingSession)
    (payload : NodePairingClaim) (drawn : Drawn) (now : ℕ)
    → (claimed_with hash db pairing payload drawn now).1.sessions
      ≡ update_session pairing.id
          (consume
            (pair_node db.nodes pairing payload drawn.node_id now).0
            payload.supervisor_id
            now)
          db.sessions
unfolding claimed_with
claimed_with-sessions hash db pairing payload drawn now = refl

claimed_with-valid :
    (hash : String → String) (db : Registry) (pairing : NodePairingSession)
    (payload : NodePairingClaim) (drawn : Drawn) (now : ℕ)
    → validate_supervisor_credential hash
        (claimed_with hash db pairing payload drawn now).1
        pairing.tenant_id
        payload.supervisor_id
        drawn.secret
      ≡ true
unfolding claimed_with validate_supervisor_credential keep any
claimed_with-valid hash db pairing payload drawn now = ground (
  arith,
  (nat_beq_iff pairing.tenant_id pairing.tenant_id).1 refl,
  (eq_iff payload.supervisor_id payload.supervisor_id).1 refl,
  (eq_iff (hash drawn.secret) (hash drawn.secret)).1 refl,
)

refuse-consumed :
    (hash : String → String) (db : Registry) (tenant_id : Option ℕ) (session_id : ℕ)
    (payload : NodePairingClaim) (drawn : Drawn) (now : ℕ) (pairing : NodePairingSession)
    → load_pairing_session db.sessions tenant_id session_id ≡ some pairing
    → is_consumed pairing.status ≡ true
    → claim_pairing_session hash db tenant_id session_id payload drawn now
      ≡ (inl already_consumed, db)
unfolding claim_pairing_session
refuse-consumed hash db tenant_id session_id payload drawn now pairing loaded over =
    ground (arith, loaded, over)

-- What the reply to a claim carries.
pub record IsIssued (hash : String → String) (pairing : NodePairingSession)
    (payload : NodePairingClaim) (drawn : Drawn) (credential : SupervisorNodeCredential)
    : Type 0 where
  pub tenant : credential.tenant_id ≡ pairing.tenant_id
  pub supervisor : credential.supervisor_id ≡ payload.supervisor_id
  pub hashed : credential.credential_hash ≡ hash drawn.secret
  pub in_use : credential.status ≡ active

-- A claim of a session that is not consumed, in time and with the right code, answers an active
-- credential for the supervisor in the session's tenant, with the hash of the drawn secret, and adds it
-- to the stored ones. The secret is then valid for the supervisor, and the next claim of the session
-- is refused and changes nothing, whatever code it brings.
pub claim_pairing_session-once :
    (hash : String → String) (db : Registry) (tenant_id : Option ℕ) (session_id : ℕ)
    (payload : NodePairingClaim) (drawn : Drawn) (now : ℕ) (pairing : NodePairingSession)
    (payload' : NodePairingClaim) (drawn' : Drawn) (later : ℕ)
    → load_pairing_session db.sessions tenant_id session_id ≡ some pairing
    → is_consumed pairing.status ≡ false
    → ltb pairing.expires_at now ≡ false
    → pairing.pairing_code_hash ≡ hash payload.pairing_code
    → let (reply, db') = claim_pairing_session hash db tenant_id session_id payload drawn now in
      ((credential : SupervisorNodeCredential) × (reply ≡ inr credential)
        × IsIssued hash pairing payload drawn credential
        × (db'.credentials ≡ credential ∷ db.credentials))
      × (validate_supervisor_credential hash db' pairing.tenant_id payload.supervisor_id
            drawn.secret
          ≡ true)
      × (claim_pairing_session hash db' tenant_id session_id payload' drawn' later
          ≡ (inl already_consumed, db'))
claim_pairing_session-once hash db tenant_id session_id payload drawn now pairing payload' drawn'
      later loaded open_yet in_time code =
    let issued = claimed_with hash db pairing payload drawn now in
    let after = issued.1 in
    let same_code = (eq_iff pairing.pairing_code_hash (hash payload.pairing_code)).1 code in
    let is_issued : claim_pairing_session hash db tenant_id session_id payload drawn now
        ≡ (inr issued.0, after) =
      unfold claim_pairing_session in ground (arith, loaded, open_yet, in_time, same_code) in
    let is_after = ap (λ r. r.1) is_issued in
    let node_id = (pair_node db.nodes pairing payload drawn.node_id now).0 in
    let used = consume node_id payload.supervisor_id now pairing in
    let found : load_pairing_session after.sessions tenant_id session_id ≡ some used =
      ap (λ rows. load_pairing_session rows tenant_id session_id)
        (claimed_with-sessions hash db pairing payload drawn now)
      ∙ load-update_session db.sessions tenant_id session_id node_id now payload.supervisor_id
          pairing loaded in
    (
      (
        issued.0,
        ap (λ r. r.0) is_issued,
        unfold claimed_with in
            record { tenant = refl; supervisor = refl; hashed = refl; in_use = refl },
        ap (λ r. r.1.credentials) is_issued ∙ unfold claimed_with in refl,
      ),
      ap
            (λ d.
              validate_supervisor_credential hash d pairing.tenant_id payload.supervisor_id
                drawn.secret)
            is_after
          ∙ claimed_with-valid hash db pairing payload drawn now,
      subst
          (λ d.
            claim_pairing_session hash d tenant_id session_id payload' drawn' later
            ≡ (inl already_consumed, d))
          (sym is_after)
          (refuse-consumed hash after tenant_id session_id payload' drawn' later used found refl),
    )
