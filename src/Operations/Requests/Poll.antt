-- ===== src/Operations/Requests/Poll.antt =====
-- What a supervisor is offered by a poll, and what a claim makes of it.
use vision.Common.{
  ℕ, ◌≡◌, inr, refl, ap, ◌∙◌, subst, String, Bool, true, not, zero, suc, Option, some, List, [],
  ◌∷◌, map, keep, keep-All, All-keep, sorted, sorted-All, insort, take, All, All-imp, All-both,
  ◌==◌, if◌then◌else◌, compare_nat, compare_option, arith, nat_beq_iff, IsUnique,
}
use vision.Operations.Latest.{is_older}
use vision.Operations.Requests.{
  OperationsLifecycleRequest, Tables, is_requested, is_pending_for, requested_time,
  request_matches_supervisor_scope, pending_requests, poll_lifecycle_requests, update_request,
  load_lifecycle_request, claimed, claim_lifecycle_request,
}
use vision.Operations.Requests.Rows.{ids_of, load-id, load-own}

-- A change that keeps the tenant and the time of a row.
module _ (id : ℕ) (f : OperationsLifecycleRequest → OperationsLifecycleRequest) where
  abbrev at_id : OperationsLifecycleRequest → OperationsLifecycleRequest
  at_id row = if row.id == id then f row else row

  update_request-map :
      (table : List OperationsLifecycleRequest) → update_request id f table ≡ map at_id table
  unfolding update_request
  update_request-map [] = refl
  update_request-map (row ∷ rows) = ap (λ t. at_id row ∷ t) (update_request-map rows)

keep-map :
    (p : OperationsLifecycleRequest → Bool)
    (g : OperationsLifecycleRequest → OperationsLifecycleRequest)
    (table : List OperationsLifecycleRequest)
    → ((row : OperationsLifecycleRequest) → p (g row) ≡ p row)
    → keep p (map g table) ≡ map g (keep p table)
unfolding keep
keep-map p g [] same = refl
keep-map p g (row ∷ rows) same = ground (arith, same row, keep-map p g rows same)

insort-map :
    (g : OperationsLifecycleRequest → OperationsLifecycleRequest) (row : OperationsLifecycleRequest)
    (rows : List OperationsLifecycleRequest)
    → ((x : OperationsLifecycleRequest) → (g x).requested_at ≡ x.requested_at)
    → insort (is_older requested_time) (g row) (map g rows)
      ≡ map g (insort (is_older requested_time) row rows)
unfolding insort
insort-map g row [] same = refl
insort-map g row (y ∷ ys) same = ground (arith, same row, same y, insort-map g row ys same)

sorted-map :
    (g : OperationsLifecycleRequest → OperationsLifecycleRequest)
    (rows : List OperationsLifecycleRequest)
    → ((x : OperationsLifecycleRequest) → (g x).requested_at ≡ x.requested_at)
    → sorted (is_older requested_time) (map g rows) ≡ map g (sorted (is_older requested_time) rows)
unfolding sorted
sorted-map g [] same = refl
sorted-map g (row ∷ rows) same =
    ap (insort (is_older requested_time) (g row)) (sorted-map g rows same)
    ∙ insort-map g row (sorted (is_older requested_time) rows) same

pending-map :
    (id now : ℕ) (supervisor_id : String) (edge_node_id : Option ℕ)
    (rows : List OperationsLifecycleRequest)
    → keep (is_pending_for edge_node_id) (map (at_id id (claimed supervisor_id now)) rows)
      ≡ keep (λ row. not (row.id == id)) (keep (is_pending_for edge_node_id) rows)
unfolding keep
pending-map id now supervisor_id edge_node_id [] = refl
pending-map id now supervisor_id edge_node_id (row ∷ rows) =
    ground (arith, pending-map id now supervisor_id edge_node_id rows)

-- A supervisor that claims a waiting request of its scope gets it, and after it no poll, by whoever
-- it is, offers the request; what else is pending stays pending, in the same order.
pub claim-pending_requests :
    (db : Tables) (tenant_id request_id : ℕ) (supervisor_id : String) (edge_node_id : Option ℕ)
    (now : ℕ) (row : OperationsLifecycleRequest) (edge_node_id' : Option ℕ)
    → load_lifecycle_request db.requests tenant_id request_id ≡ some row
    → is_requested row.status ≡ true
    → request_matches_supervisor_scope row edge_node_id ≡ true
    → let (reply, db') =
        claim_lifecycle_request db tenant_id request_id supervisor_id edge_node_id now in
      (reply ≡ inr (claimed supervisor_id now row))
      × (pending_requests db'.requests tenant_id edge_node_id'
          ≡ keep
              (λ r. not (r.id == request_id))
              (pending_requests db.requests tenant_id edge_node_id'))
unfolding pending_requests
claim-pending_requests db t id supervisor_id edge_node_id now row edge_node_id' loaded waiting
      scoped =
    let f = at_id id (claimed supervisor_id now) in
    let own = keep (λ r. r.tenant_id == t) db.requests in
    let same_id = (load-id db.requests t id row loaded).0 in
    let r = claim_lifecycle_request db t id supervisor_id edge_node_id now in
    let after : r.1.requests ≡ map f db.requests =
      unfold claim_lifecycle_request in
      ground (
        arith,
        loaded,
        waiting,
        scoped,
        same_id,
        update_request-map id (claimed supervisor_id now) db.requests,
      ) in
    let mine = keep-map (λ x. x.tenant_id == t) f db.requests (λ x. ground arith) in
    let order = sorted-map f own (λ x. ground arith) in
    (
      unfold claim_lifecycle_request in ground (arith, loaded, waiting, scoped),
      ap
            (λ x.
              keep (is_pending_for edge_node_id')
                (sorted (is_older requested_time) (keep (λ q. q.tenant_id == t) x)))
            after
          ∙ ap (λ x. keep (is_pending_for edge_node_id') (sorted (is_older requested_time) x)) mine
          ∙ ap (keep (is_pending_for edge_node_id')) order
          ∙ pending-map id now supervisor_id edge_node_id' (sorted (is_older requested_time) own),
    )

take-All :
    (P : OperationsLifecycleRequest → Type 0) (n : ℕ) (rows : List OperationsLifecycleRequest)
    → All P rows
    → All P (take n rows)
take-All P zero rows h = tt
take-All P (suc n) [] h = tt
take-All P (suc n) (row ∷ rows) h = (h.0, take-All P n rows h.1)

claim_waiting :
    (db : Tables) (supervisor_id : String) (edge_node_id : Option ℕ) (now : ℕ)
    (row : OperationsLifecycleRequest)
    → load_lifecycle_request db.requests row.tenant_id row.id ≡ some row
    → is_pending_for edge_node_id row ≡ true
    → (claim_lifecycle_request db row.tenant_id row.id supervisor_id edge_node_id now).0
      ≡ inr (claimed supervisor_id now row)
unfolding claim_lifecycle_request
claim_waiting db supervisor_id edge_node_id now row loaded waiting = ground (arith, loaded, waiting)

-- Every request that a poll offers is the tenant's, and a claim of it in the poll's scope succeeds, if
-- ids are unique.
pub poll-claim :
    (db : Tables) (tenant_id : ℕ) (supervisor_id : String) (edge_node_id : Option ℕ) (limit now : ℕ)
    → IsUnique (ids_of db.requests)
    → All
        (λ row.
          (row.tenant_id ≡ tenant_id)
          × ((claim_lifecycle_request db tenant_id row.id supervisor_id edge_node_id now).0
              ≡ inr (claimed supervisor_id now row)))
        (poll_lifecycle_requests db tenant_id edge_node_id limit)
unfolding poll_lifecycle_requests pending_requests
poll-claim db t supervisor_id edge_node_id limit now unique =
    let mine = λ (r : OperationsLifecycleRequest). r.tenant_id == t in
    let found = λ (r : OperationsLifecycleRequest).
      load_lifecycle_request db.requests r.tenant_id r.id ≡ some r in
    let own = keep mine db.requests in
    let order = sorted (is_older requested_time) own in
    let waiting = keep (is_pending_for edge_node_id) order in
    let known : All (λ r. (mine r ≡ true) × found r) order =
      sorted-All (is_older requested_time) (λ r. (mine r ≡ true) × found r) own
        (All-both (λ r. mine r ≡ true) found own (keep-All mine db.requests)
          (All-keep found mine db.requests (load-own db.requests unique))) in
    let all_known =
      All-both (λ r. is_pending_for edge_node_id r ≡ true) (λ r. (mine r ≡ true) × found r) waiting
        (keep-All (is_pending_for edge_node_id) order)
        (All-keep (λ r. (mine r ≡ true) × found r) (is_pending_for edge_node_id) order known) in
    take-All _ limit waiting (
      All-imp _ _ waiting
        (λ r h.
          let same = (nat_beq_iff r.tenant_id t).0 h.1.0 in
          (
            same,
            subst
                (λ k.
                  (claim_lifecycle_request db k r.id supervisor_id edge_node_id now).0
                  ≡ inr (claimed supervisor_id now r))
                same (claim_waiting db supervisor_id edge_node_id now r h.1.1 h.0),
          ))
        all_known)
