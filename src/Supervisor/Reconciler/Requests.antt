-- ===== src/Supervisor/Reconciler/Requests.antt =====
-- What a pass does with the claimed requests.
use vision.Common.{
  ℕ, ◌≡◌, refl, sym, ◌∙◌, ap, String, true, false, ◌&&◌, Option, none, some, List, [], ◌∷◌, ◌++◌,
  map, arith, compare_nat, compare_option, compare_string, IsDistinct, eq_iff, nat_beq_iff,
  option_beq_iff, append-nil, append_assoc,
}
use vision.Supervisor.Adapter.{
  RuntimeState, running, error, WorkerProcessResult, refused, System, Adapter, is_running, start,
  drain, start_process,
}
use vision.Supervisor.Adapter.Processes.{
  start-IsDistinct, stop-IsDistinct, restart-IsDistinct, start-launch,
}
use vision.Supervisor.Reconciler.{
  Action, start_action, stop_action, restart_action, drain_action, is_start, is_starting,
  is_admitted, Admission, Request, completed, Event, reported, concluded, StartKey, Pass, Answers,
  start_key, same_key, has_started, record_duplicate_start, perform, execute, deny, remember_start,
  conclude, carry_out, process_claimed_request, process_all,
}

-- The requests that the events conclude, in order.
unfoldable pub conclusions : List Event → List ℕ
conclusions [] = []
conclusions (reported i state last_error ∷ es) = conclusions es
conclusions (concluded i status admission_id message ∷ es) = i ∷ conclusions es

pub conclusions-append :
    (es fs : List Event) → conclusions (es ++ fs) ≡ conclusions es ++ conclusions fs
unfolding conclusions
conclusions-append [] fs = refl
conclusions-append (reported i state last_error ∷ es) fs = conclusions-append es fs
conclusions-append (concluded i status admission_id message ∷ es) fs =
    ap (◌∷◌ i) (conclusions-append es fs)

pub conclusions-reported :
    (es : List Event) (i : ℕ) (state : RuntimeState) (last_error : Option String)
    → conclusions (es ++ reported i state last_error ∷ []) ≡ conclusions es
unfolding conclusions
conclusions-reported es i state last_error =
    conclusions-append es (reported i state last_error ∷ []) ∙ append-nil (conclusions es)

conclude-conclusions :
    (p : Pass) (q : Request) (outcome : WorkerProcessResult) (admission_id : Option ℕ)
    → conclusions (conclude p q outcome admission_id).events ≡ conclusions p.events ++ q.id ∷ []
unfolding conclude conclusions
conclude-conclusions p q outcome admission_id = simp (conclusions-append, append_assoc)

carry_out-conclusions :
    (p : Pass) (q : Request) (sys : System) (admission_id : Option ℕ)
    → conclusions (carry_out p q sys admission_id).events ≡ conclusions p.events ++ q.id ∷ []
unfolding carry_out remember_start
carry_out-conclusions p q sys admission_id =
    let (outcome, a) = execute p.adapter sys q in
    ground (arith, conclude-conclusions (record p { adapter = a }) q outcome admission_id)

deny-conclusions :
    (p : Pass) (q : Request) (m : Admission)
    → conclusions (deny p q m).events ≡ conclusions p.events ++ q.id ∷ []
unfolding deny conclusions
deny-conclusions p q m = conclusions-append p.events _

duplicate-conclusions :
    (p : Pass) (q : Request)
    → conclusions (record_duplicate_start p q).events ≡ conclusions p.events ++ q.id ∷ []
unfolding record_duplicate_start conclusions
duplicate-conclusions p q = simp (conclusions-append, append_assoc)

process_claimed_request-conclusions :
    (p : Pass) (q : Request) (w : Answers)
    → conclusions (process_claimed_request p q w).events ≡ conclusions p.events ++ q.id ∷ []
unfolding process_claimed_request
process_claimed_request-conclusions p q w = ground (
  arith,
  duplicate-conclusions p q,
  deny-conclusions p q w.admission,
  carry_out-conclusions p q w.system none,
  carry_out-conclusions p q w.system (some w.admission.id),
)

-- Every claimed request is concluded exactly once, in the order of the claims.
pub process_all-conclusions :
    (p : Pass) (requests : List (Request × Answers))
    → conclusions (process_all p requests).events
      ≡ conclusions p.events ++ map (λ r. r.0.id) requests
unfolding process_all
process_all-conclusions p [] = sym (append-nil (conclusions p.events))
process_all-conclusions p ((q, w) ∷ rest) =
    process_all-conclusions (process_claimed_request p q w) rest
    ∙ ap (λ es. es ++ map (λ r. r.0.id) rest) (process_claimed_request-conclusions p q w)
    ∙ append_assoc (conclusions p.events) (q.id ∷ []) (map (λ r. r.0.id) rest)

-- The processes of the adapter change only for requests that need no admission, or that have one.
pub process_claimed_request-denied :
    (p : Pass) (q : Request) (w : Answers)
    → is_starting q.action ≡ true
    → is_admitted w.admission.status ≡ false
    → (process_claimed_request p q w).adapter ≡ p.adapter
unfolding process_claimed_request record_duplicate_start deny
process_claimed_request-denied p q w starting denied = ground arith

same_key_refl : (k : StartKey) → same_key k k ≡ true
same_key_refl (camera, assignment, payload) = ground (
  arith,
  nat_beq_iff camera camera,
  (option_beq_iff compare_nat assignment assignment),
  eq_iff payload payload,
)

process_claimed_request-has_started :
    (p : Pass) (q : Request) (w : Answers) (k : StartKey)
    → has_started p.started k ≡ true
    → has_started (process_claimed_request p q w).started k ≡ true
unfolding process_claimed_request record_duplicate_start deny carry_out conclude remember_start
    has_started
process_claimed_request-has_started p q w k h = ground arith

process_all-has_started :
    (p : Pass) (requests : List (Request × Answers)) (k : StartKey)
    → has_started p.started k ≡ true
    → has_started (process_all p requests).started k ≡ true
unfolding process_all
process_all-has_started p [] k h = h
process_all-has_started p ((q, w) ∷ rest) k h =
    process_all-has_started (process_claimed_request p q w) rest k
      (process_claimed_request-has_started p q w k h)

success-has_started :
    (p : Pass) (q : Request) (w : Answers)
    → q.action ≡ start_action
    → is_admitted w.admission.status ≡ true
    → (start p.adapter w.system q.camera_id).0.last_error ≡ none
    → has_started (process_claimed_request p q w).started (start_key q) ≡ true
unfolding process_claimed_request record_duplicate_start carry_out conclude execute remember_start
    has_started
success-has_started p q w starts admitted fine = ground (arith, same_key_refl (start_key q))

-- Once a start succeeded, a start of the same camera, assignment and payload that comes later in the
-- pass, whatever stands between them, leaves the processes alone, is reported as running and is
-- concluded as completed.
pub process_all-duplicate_start :
    (p : Pass) (q later : Request) (w w' : Answers) (between : List (Request × Answers))
    → q.action ≡ start_action
    → is_admitted w.admission.status ≡ true
    → (start p.adapter w.system q.camera_id).0.last_error ≡ none
    → later.action ≡ start_action
    → start_key later ≡ start_key q
    → let before = process_all (process_claimed_request p q w) between in
      process_claimed_request before later w' ≡ record before {
        events =
            (before.events ++ reported later.id running none ∷ [])
            ++ concluded later.id completed none none ∷ [];
      }
unfolding process_claimed_request record_duplicate_start
process_all-duplicate_start p q later w w' between starts admitted fine again key =
    let before = process_all (process_claimed_request p q w) between in
    let known : has_started before.started (start_key later) ≡ true =
      ap (has_started before.started) key
      ∙ process_all-has_started (process_claimed_request p q w) between (start_key q)
          (success-has_started p q w starts admitted fine) in
    let duplicate : is_start later.action && has_started before.started (start_key later) ≡ true =
      ground (arith, known) in
    rw (duplicate, process_claimed_request)

-- A launch that fails with an exception whose text is empty is reported as an error and yet
-- concluded as completed: the pass tests the text, not its presence.
pub process_claimed_request-empty_error :
    (p : Pass) (q : Request) (w : Answers)
    → q.action ≡ start_action
    → has_started p.started (start_key q) ≡ false
    → is_admitted w.admission.status ≡ true
    → is_running p.adapter w.system q.camera_id ≡ false
    → w.system.launch q.camera_id ≡ refused ""
    → (process_claimed_request p q w).events
      ≡ (p.events ++ reported q.id error (some "") ∷ [])
        ++ concluded q.id completed (some w.admission.id) (some "") ∷ []
unfolding process_claimed_request carry_out conclude execute remember_start start_process
process_claimed_request-empty_error p q w starts new admitted idle refusal =
    ground (arith, start-launch p.adapter w.system q.camera_id (refused "") idle refusal)

perform-IsDistinct :
    (a : Adapter) (sys : System) (action : Action) (camera_id : ℕ)
    → IsDistinct a.processes
    → IsDistinct (perform a sys action camera_id).1.processes
unfolding perform drain
perform-IsDistinct a sys start_action c d = start-IsDistinct a sys c d
perform-IsDistinct a sys stop_action c d = stop-IsDistinct a sys c d
perform-IsDistinct a sys restart_action c d = restart-IsDistinct a sys c d
perform-IsDistinct a sys drain_action c d =
    stop-IsDistinct (record a { accepting_new_work = false }) sys c d

execute-IsDistinct :
    (a : Adapter) (sys : System) (q : Request)
    → IsDistinct a.processes
    → IsDistinct (execute a sys q).1.processes
unfolding execute
execute-IsDistinct a sys q d = perform-IsDistinct a sys q.action q.camera_id d

process_claimed_request-IsDistinct :
    (p : Pass) (q : Request) (w : Answers)
    → IsDistinct p.adapter.processes
    → IsDistinct (process_claimed_request p q w).adapter.processes
unfolding process_claimed_request record_duplicate_start deny carry_out conclude remember_start
process_claimed_request-IsDistinct p q w d =
    ground (arith, execute-IsDistinct p.adapter w.system q d)

pub process_all-IsDistinct :
    (p : Pass) (requests : List (Request × Answers))
    → IsDistinct p.adapter.processes
    → IsDistinct (process_all p requests).adapter.processes
unfolding process_all
process_all-IsDistinct p [] d = d
process_all-IsDistinct p ((q, w) ∷ rest) d =
    process_all-IsDistinct (process_claimed_request p q w) rest
      (process_claimed_request-IsDistinct p q w d)
