-- ===== src/Lib.antt =====
-- Vezor's vision backend (backend/src/argus), as functions and theorems about them.
--
-- A node of a site runs one worker process per camera. The supervisor of the node claims lifecycle
-- requests, asks whether a worker's model is admitted, and starts and stops the processes. The worker
-- selects the runtime for its model, detects objects in each frame, gives them stable identities with
-- the track manager, counts line crossings and zone changes, and evaluates the camera's rules. Before
-- the tracking, overlapping detections and doubtful candidates are dropped. The central side pairs nodes
-- and gives them credentials, keeps the assignments and requests that supervisors poll, and chains what
-- happens to the evidence of an incident in a ledger, to which the upload of local evidence writes.
--
-- Common: what the parts share. Tests, equality as an interface (Comparable), lists, dictionaries in
--   insertion order (Maps), programs that may raise (Outcome), double-precision numbers as an
--   interface (Float) and a concrete instance of it, signed thousandths, to run the models (Fixed).
-- Detection: backend/src/argus/vision/types.py, the record `Detection`, with the values of attributes and
--   their `==`: True and False are 1 and 0, and numbers, integers and finite floats, are exact values.
-- Tracking: backend/src/argus/vision/track_lifecycle.py, the class `TrackLifecycleManager`. Its state
--   is the record `Manager`; `update` is `Tracking.Update.update`, made of `observe_all` (one detection
--   after the other), `suppress_duplicate_detections` and `publish` (ageing and the visible list). A
--   lookup that would raise a KeyError is a `none`. Memory and Geometry hold the data and the box
--   functions, Steps the smaller methods; Invariant, Preservation, Matching, Observation, Suppression,
--   Ageing, Results and Lifetime are the proofs.
-- Supervisor: backend/src/argus/supervisor. Adapter is process_adapter.py: the dictionary of processes,
--   with the operating system as a record of what a launch and a termination give. Reconciler is
--   reconciler.py: `reconcile_once` over the claimed requests and the fleet; the calls that change the
--   control plane are a list of events, and what it answers is an argument for each request.
-- Counting: backend/src/argus/vision/count_events.py and two functions of vision/anpr.py, the class
--   `CountEventProcessor`; `process` is `Counting.process`.
-- Runtime: Selection is backend/src/argus/vision/runtime_selection.py, `select_runtime_artifact`;
--   Admission is backend/src/argus/services/model_admission.py, `evaluate_worker_model_admission`.
-- Rules: backend/src/argus/vision/rules.py, the class `RuleEngine`; `evaluate` carries what was
--   published and stored, and whether one of these calls raised.
-- Publishing: backend/src/argus/inference/publisher.py, the classes `BufferedTelemetryPublisher` (its
--   queue and its worker's turns, each with how the wrapped publisher's call ends) and `HttpPublisher`,
--   whose request may raise although the server took the frames, and may see other calls append; what is
--   appended during an accepted request is cleared with the buffer, as in the code.
-- Scheduling: backend/src/argus/inference/scheduler.py, `Scheduler.sync`.
-- Evidence: Ledger is backend/src/argus/services/evidence_ledger.py, the chained log of every incident;
--   Sync is services/local_first_sync.py, a pass that uploads the local artifacts of a tenant and writes
--   what happened to the ledger. The database is a record of tables.
-- Operations: backend/src/argus/services/supervisor_operations.py, the control plane that the supervisor
--   polls. Assignments, Requests (with Dispatch), Reports, Admissions and Controls are its tables and
--   rules; Latest is the loop that its queries share. Requests.Claims has the calls as a step relation.
-- Metrics: the labels of backend/src/argus/supervisor/metrics_probe.py; a text is a list of codes.
-- Detector: backend/src/argus/vision/detector.py, the non-maximum suppression `_apply_nms`.
-- Nodes: backend/src/argus/services/deployment_nodes.py, pairing sessions and the credentials of nodes.
--   Pairing and Credentials are the operations; Claimed, Rotated and Revoked are the proofs.
-- Quality: backend/src/argus/vision/candidate_quality.py, the gate that detections pass before tracking.
--
-- Times are natural numbers of microseconds, and so are thresholds that the code has in seconds; an
-- id (UUID) is a number. The milliseconds of `_elapsed_ms` are computed through doubles as the code
-- does. Other floats are an interface: no law of rounding is used, and a proof that compares them
-- takes the laws of a total order (IsOrdered), which hold of values that are not NaN. `lower` and
-- `in` of texts, `int(round(x))` and the polygon test are interfaces too. Two loops have fuel. That
-- of the non-maximum suppression gets as much as it has detections, and each turn takes one off at
-- least. That of `double_shift`, which normalises a double, gets 72, since 2 ^ 72 is more than 10 ^
-- 6 * 2 ^ 52. All others run over a list that they do not change, or over a snapshot.
--
-- Not modelled: the web API, persistence, streaming and video capture, bindings to detectors, prompts of
-- language models, the user interface, the installer and the deployment files. A nested container as an
-- attribute's value, an exception of the control plane's calls, and the plate reader of vision/anpr.py
-- are outside the models. So are the frame loop of inference/engine.py, the histograms of the metrics, the
-- bootstrap of a master and the reports of services, clips and their quotas, and the queries of
-- services/app.py.
pub mod Common
pub mod Detection
pub mod Tracking
pub mod Supervisor
pub mod Counting
pub mod Runtime
pub mod Rules
pub mod Publishing
pub mod Scheduling
pub mod Evidence
pub mod Operations
pub mod Metrics
pub mod Quality
pub mod Nodes
pub mod Detector
