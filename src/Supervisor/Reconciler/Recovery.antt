-- ===== src/Supervisor/Reconciler/Recovery.antt =====
-- Which workers a pass starts because the fleet wants them, and the pass as a whole.
use vision.Common.{
  ℕ, ◌<◌, ◌≡◌, refl, ap, Bool, true, false, Option, none, some, List, [], ◌∷◌, ◌++◌, arith, inl,
  inr, ◌⊎◌, ◌&&◌, length, String, compare_nat, compare_option, option_beq_iff, is_some, Bool-cases,
}
use vision.Supervisor.Adapter.{RuntimeState, Adapter, is_running, start}
use vision.Supervisor.Reconciler.{
  is_admitted, AdmissionStatus, recommended, supported, degraded, unsupported, unknown, Pass,
  Answers, Worker, RuntimeReport, RestartPolicy, never, on_failure, always, DesiredState, desired,
  not_desired, manual, supervised, Owner, manual_dev, central_supervisor, edge_supervisor, nobody,
  is_central, is_edge, Event, reported, wants_running, owner_matches, allows_restart,
  allows_recovery, should_start, request_for, recover, recover_all, max_on_failure_restarts,
}
use vision.Supervisor.Reconciler.Requests.{conclusions}

-- The restart policy allows a start after the last report, if there is one.
abbrev pub AllowsRestart : RestartPolicy → Option RuntimeReport → Type 0
AllowsRestart policy none = Unit
AllowsRestart policy (some report) =
    (policy ≡ always)
    ⊎ (policy ≡ on_failure)
      × (report.in_error ≡ true)
      × (report.restart_count < max_on_failure_restarts)

-- The supervisor of the given edge node, or the central one, owns the worker.
abbrev pub IsOwner : Option ℕ → Worker → Type 0
IsOwner none w = (w.lifecycle_owner ≡ central_supervisor) × (w.node_id ≡ none)
IsOwner (some node) w = (w.lifecycle_owner ≡ edge_supervisor) × (w.node_id ≡ some node)

-- What has to hold for a worker to be started without a request.
pub record IsOwed (a : Adapter) (answers : Answers) (edge_node_id : Option ℕ) (w : Worker)
    : Type 0 where
  pub accepting : a.accepting_new_work ≡ true
  pub wanted : (w.desired_state ≡ desired) ⊎ (w.desired_state ≡ supervised)
  pub owned : IsOwner edge_node_id w
  pub idle : is_running a answers.system w.camera_id ≡ false
  pub policy : AllowsRestart w.restart_policy w.runtime_report
  pub admitted :
      (answers.admission.status ≡ recommended)
      ⊎ (answers.admission.status ≡ supported)
      ⊎ (answers.admission.status ≡ degraded)

wants_running-cases :
    (state : DesiredState) → wants_running state ≡ true → (state ≡ desired) ⊎ (state ≡ supervised)
wants_running-cases desired h = inl refl
wants_running-cases supervised h = inr refl
wants_running-cases not_desired h = cc
wants_running-cases manual h = cc

is_admitted-cases :
    (status : AdmissionStatus)
    → is_admitted status ≡ true
    → (status ≡ recommended) ⊎ (status ≡ supported) ⊎ (status ≡ degraded)
is_admitted-cases recommended h = inl refl
is_admitted-cases supported h = inr (inl refl)
is_admitted-cases degraded h = inr (inr refl)
is_admitted-cases unsupported h = cc
is_admitted-cases unknown h = cc

is_central-eq : (o : Owner) → is_central o ≡ true → o ≡ central_supervisor
is_central-eq central_supervisor h = refl
is_central-eq manual_dev h = cc
is_central-eq edge_supervisor h = cc
is_central-eq nobody h = cc

is_edge-eq : (o : Owner) → is_edge o ≡ true → o ≡ edge_supervisor
is_edge-eq edge_supervisor h = refl
is_edge-eq manual_dev h = cc
is_edge-eq central_supervisor h = cc
is_edge-eq nobody h = cc

is_some-none : (o : Option ℕ) → is_some o ≡ false → o ≡ none
is_some-none none h = refl
is_some-none (some x) h = cc

owner_matches-IsOwner :
    (w : Worker) (edge_node_id : Option ℕ)
    → owner_matches w edge_node_id ≡ true
    → IsOwner edge_node_id w
unfolding owner_matches
owner_matches-IsOwner w none h =
    (is_central-eq w.lifecycle_owner (ground arith), is_some-none w.node_id (ground arith))
owner_matches-IsOwner w (some node) h = (
  is_edge-eq w.lifecycle_owner (ground arith),
  (option_beq_iff compare_nat w.node_id (some node)).0 (ground arith),
)

IsOwner-owner_matches :
    (w : Worker) (edge_node_id : Option ℕ)
    → IsOwner edge_node_id w
    → owner_matches w edge_node_id ≡ true
unfolding owner_matches
IsOwner-owner_matches w none h = rw (h.0, h.1, owner_matches) refl
IsOwner-owner_matches w (some node) h =
    let same = (option_beq_iff compare_nat w.node_id (some node)).1 h.1 in
    let edge : is_edge w.lifecycle_owner ≡ true = ap is_edge h.0 in ground (arith, edge, same)

allows_restart-AllowsRestart :
    (policy : RestartPolicy) (report : RuntimeReport)
    → allows_restart policy report ≡ true
    → AllowsRestart policy (some report)
unfolding allows_restart
allows_restart-AllowsRestart never report h = ground arith
allows_restart-AllowsRestart always report h = inl refl
allows_restart-AllowsRestart on_failure report h = inr (refl, ground arith, ground arith)

AllowsRestart-allows_restart :
    (policy : RestartPolicy) (report : RuntimeReport)
    → AllowsRestart policy (some report)
    → allows_restart policy report ≡ true
unfolding allows_restart
AllowsRestart-allows_restart never report h = elim h [ inl e ↦ cc | inr e ↦ cc ]
AllowsRestart-allows_restart always report h = refl
AllowsRestart-allows_restart on_failure report h = elim h [
  | inl e ↦ cc
  | inr (e, failing, few) ↦ ground (arith, failing, few)
]

allows_recovery-AllowsRestart :
    (w : Worker) → allows_recovery w ≡ true → AllowsRestart w.restart_policy w.runtime_report
unfolding allows_recovery
allows_recovery-AllowsRestart w h = by_report w.runtime_report refl
  where
    by_report : (o : Option RuntimeReport) → w.runtime_report ≡ o → AllowsRestart w.restart_policy o
    by_report none e = tt
    by_report (some report) e = allows_restart-AllowsRestart w.restart_policy report (ground arith)

AllowsRestart-allows_recovery :
    (w : Worker) → AllowsRestart w.restart_policy w.runtime_report → allows_recovery w ≡ true
unfolding allows_recovery
AllowsRestart-allows_recovery w h = by_report w.runtime_report refl h
  where
    by_report :
        (o : Option RuntimeReport)
        → w.runtime_report ≡ o
        → AllowsRestart w.restart_policy o
        → allows_recovery w ≡ true
    by_report none e h' = ground (arith, e)
    by_report (some report) e h' =
        ground (arith, e, AllowsRestart-allows_restart w.restart_policy report h')

-- The code's own condition for a start.
abbrev may_start : Adapter → Answers → Option ℕ → Worker → Bool
may_start a answers edge_node_id w =
    should_start a answers.system edge_node_id w && is_admitted answers.admission.status

may_start-IsOwed :
    (a : Adapter) (answers : Answers) (edge_node_id : Option ℕ) (w : Worker)
    → may_start a answers edge_node_id w ≡ true
    → IsOwed a answers edge_node_id w
unfolding should_start
may_start-IsOwed a answers here w h = record {
  accepting = ground arith;
  wanted = wants_running-cases w.desired_state (ground arith);
  owned = owner_matches-IsOwner w here (ground arith);
  idle = ground arith;
  policy = allows_recovery-AllowsRestart w (ground arith);
  admitted = is_admitted-cases answers.admission.status (ground arith);
}

IsOwed-may_start :
    (a : Adapter) (answers : Answers) (edge_node_id : Option ℕ) (w : Worker)
    → IsOwed a answers edge_node_id w
    → may_start a answers edge_node_id w ≡ true
unfolding should_start
IsOwed-may_start a answers here w h =
    let wanted : wants_running w.desired_state ≡ true = elim h.wanted [
      | inl e ↦ ap wants_running e
      | inr e ↦ ap wants_running e
    ] in
    let admitted : is_admitted answers.admission.status ≡ true = elim h.admitted [
      | inl e ↦ ap is_admitted e
      | inr (inl e) ↦ ap is_admitted e
      | inr (inr e) ↦ ap is_admitted e
    ] in
    ground (
      arith,
      h.accepting,
      wanted,
      IsOwner-owner_matches w here h.owned,
      h.idle,
      AllowsRestart-allows_recovery w h.policy,
      admitted,
    )

-- A worker that the supervisor does not start leaves the pass as it is; a start is made, reported
-- under the given id, and counted.
pub data Recovered (p : Pass) (edge_node_id : Option ℕ) (w : Worker) (request_id : ℕ)
    (answers : Answers) : Pass × Bool → Type 0 where
  left :
      ¬ (IsOwed p.adapter answers edge_node_id w)
      → Recovered p edge_node_id w request_id answers (p, false)
  begun :
      (p' : Pass)
      → IsOwed p.adapter answers edge_node_id w
      → p'.adapter ≡ (start p.adapter answers.system w.camera_id).1
      → ((state : RuntimeState) × (err : Option String) × (p'.events
            ≡ p.events ++ reported request_id state err ∷ []))
      → Recovered p edge_node_id w request_id answers (p', true)

-- A worker is started without a request exactly if the adapter accepts work, the fleet wants it
-- running, this supervisor owns it (the central one a worker without a node, an edge one a worker of
-- its node), no process of it runs, its model is admitted, and its restart policy allows it after
-- its last report: `always`, or `on_failure` after an error and fewer than three restarts, or any policy
-- without a report. The start is then made and reported, and counted; otherwise nothing changes.
pub recover-IsOwed :
    (p : Pass) (edge_node_id : Option ℕ) (w : Worker) (request_id : ℕ) (answers : Answers)
    → Recovered p edge_node_id w request_id answers (recover p edge_node_id w request_id answers)
unfolding recover request_for
recover-IsOwed p here w i answers = elim (Bool-cases (may_start p.adapter answers here w)) [
  | inl may ↦
      rw (may, recover) (begun _ (may_start-IsOwed p.adapter answers here w may) refl (_, _, refl))
  | inr may_not ↦
      rw (may_not, recover)
        (left (λ h. ground (arith, may_not, IsOwed-may_start p.adapter answers here w h)))
]

recover_draining :
    (p : Pass) (edge_node_id : Option ℕ) (w : Worker) (request_id : ℕ) (answers : Answers)
    → p.adapter.accepting_new_work ≡ false
    → recover p edge_node_id w request_id answers ≡ (p, false)
unfolding recover should_start
recover_draining p here w i answers closed = ground arith

-- While the adapter drains, no fleet makes it start anything.
pub recover_all_draining :
    (p : Pass) (edge_node_id : Option ℕ) (fleet : List (Worker × ℕ × Answers))
    → p.adapter.accepting_new_work ≡ false
    → recover_all p edge_node_id fleet ≡ (p, 0)
unfolding recover_all
recover_all_draining p here [] closed = refl
recover_all_draining p here ((w, i, answers) ∷ rest) closed =
    rw (recover_draining p here w i answers closed, recover_all_draining p here rest closed)
      (ground arith)

-- The reports of the starts that a fleet makes.
pub record IsRecovered (before : Pass) (after : Pass × ℕ) (starts : List Event) : Type 0 where
  pub appended : after.0.events ≡ before.events ++ starts
  pub open_ended : conclusions starts ≡ []
  pub counted : after.1 ≡ length starts
