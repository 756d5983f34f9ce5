-- ===== src/Rules/Cooldown.antt =====
-- How far apart in time the events of one rule are.
use vision.Common.{
  ℕ, ◌+◌, ◌*◌, ◌≤◌, ◌≡◌, ◌≢◌, ◌⊎◌, inl, inr, refl, true, false, not, ◌||◌, Option, none, some, List,
  [], ◌∷◌, ◌++◌, Dict, lookup, insert, All, All-append, All-imp, All-snoc, All-both, Bool-cases,
  compare_nat, lookup-insert, nat_beq_iff, arith, ◌==◌,
}
use vision.Common.Float.{Floats}
use vision.Detection.{Detection}
use vision.Rules.{
  RuleDefinition, RuleEventRecord, RuleEngine, Evaluation, Sinks, is_on_cooldown, matches_rule,
  event_of, store_event, fire, try_detection, try_detections, try_rule, try_rules, evaluate,
}

module _ ⦃fl : Floats⦄ where
  -- The cooldown that an event carries is over, after the rule's last trigger.
  abbrev IsOver : Option ℕ → RuleEventRecord → Type 0
  IsOver none event = Unit
  IsOver (some last) event =
      (event.cooldown_seconds ≡ 0) ⊎ (last + event.cooldown_seconds * 1000000 ≤ event.ts)

  -- An evaluation at `ts` that began with the triggers `start`: its events came after the cooldowns
  -- of `start`, all at `ts`, and are the last triggers of their rules; the rest is as it was.
  record IsRun (start : Dict ℕ ℕ) (ts : ℕ) (v : Evaluation) : Type 0 where
    pub over : All (λ e. IsOver (lookup e.rule_id start) e) v.events
    pub held : All (λ e. lookup e.rule_id v.last_triggered ≡ some ts) v.events
    pub timed : All (λ e. e.ts ≡ ts) v.events
    pub either :
        (id : ℕ)
        → (lookup id v.last_triggered ≡ lookup id start) ⊎ (lookup id v.last_triggered ≡ some ts)

  -- The evaluation after an event went to both sinks.
  taken-IsRun :
      (start : Dict ℕ ℕ) (ts : ℕ) (v : Evaluation) (event : RuleEventRecord)
      (published stored : List RuleEventRecord)
      → IsOver (lookup event.rule_id start) event
      → event.ts ≡ ts
      → IsRun start ts v
      → IsRun start ts (record {
        last_triggered = insert event.rule_id event.ts v.last_triggered;
        published = published;
        stored = stored;
        events = v.events ++ event ∷ [];
        raised = v.raised;
      })
  taken-IsRun start ts v event published stored over timed run = record {
    over = All-snoc _ v.events event run.over over;
    held =
        All-snoc _ v.events event
          (All-imp _ _ v.events
            (λ e h.
              ground
                (arith, lookup-insert event.rule_id e.rule_id event.ts v.last_triggered, timed))
            run.held)
          (ground (
            arith,
            lookup-insert event.rule_id event.rule_id event.ts v.last_triggered,
            nat_beq_iff event.rule_id event.rule_id,
            timed,
          ));
    timed = All-snoc _ v.events event run.timed timed;
    either = λ id.
        ground
          (arith, lookup-insert event.rule_id id event.ts v.last_triggered, run.either id, timed);
  }

  same-IsRun :
      (start : Dict ℕ ℕ) (ts : ℕ) (v w : Evaluation)
      → w.events ≡ v.events
      → w.last_triggered ≡ v.last_triggered
      → IsRun start ts v
      → IsRun start ts w
  same-IsRun start ts v w events triggered run = record {
    over = rw events run.over;
    held = rw (events, triggered) run.held;
    timed = rw events run.timed;
    either = λ id. rw triggered (run.either id);
  }

  fire-IsRun :
      (sinks : Sinks) (start : Dict ℕ ℕ) (ts : ℕ) (v : Evaluation) (event : RuleEventRecord)
      → IsOver (lookup event.rule_id start) event
      → event.ts ≡ ts
      → IsRun start ts v
      → IsRun start ts (fire sinks v event)
  unfolding fire store_event
  fire-IsRun sinks start ts v event over timed run = elim (Bool-cases (sinks.publishes event)) [
    | inl p ↦ elim (Bool-cases (sinks.records event)) [
      | inl r ↦ rw (p, r, fire, store_event) (taken-IsRun start ts v event _ _ over timed run)
      | inr r ↦ rw (p, r, fire, store_event) (same-IsRun start ts v _ refl refl run)
    ]
    | inr p ↦ rw (p, fire) (same-IsRun start ts v _ refl refl run)
  ]

  try_detections-IsRun :
      (sinks : Sinks) (start : Dict ℕ ℕ) (camera_id ts : ℕ) (rule : RuleDefinition) (v : Evaluation)
      (ds : List Detection)
      → ((d : Detection) → IsOver (lookup rule.id start) (event_of camera_id ts rule d))
      → IsRun start ts v
      → IsRun start ts (try_detections sinks camera_id ts rule v ds)
  unfolding try_detections try_detection event_of
  try_detections-IsRun sinks start c ts rule v [] over run = run
  try_detections-IsRun sinks start c ts rule v (d ∷ ds) over run =
      try_detections-IsRun sinks start c ts rule (try_detection sinks c ts rule v d) ds over
        (step (Bool-cases (v.raised || not (matches_rule rule d))))
    where
      step :
          ((v.raised || not (matches_rule rule d)) ≡ true)
            ⊎ ((v.raised || not (matches_rule rule d)) ≡ false)
          → IsRun start ts (try_detection sinks c ts rule v d)
      step (inl e) = rw (e, try_detection) run
      step (inr e) =
          rw (e, try_detection)
            (fire-IsRun sinks start ts v (event_of c ts rule d) (over d) refl run)

  -- A rule that is not on cooldown now was not when the evaluation began.
  not_on_cooldown-IsOver :
      (start : Dict ℕ ℕ) (camera_id ts : ℕ) (v : Evaluation) (rule : RuleDefinition) (d : Detection)
      → IsRun start ts v
      → is_on_cooldown v.last_triggered rule ts ≡ false
      → IsOver (lookup rule.id start) (event_of camera_id ts rule d)
  unfolding is_on_cooldown event_of
  not_on_cooldown-IsOver start c ts v rule d run off = byTrigger (lookup rule.id start) refl
    where
      byTrigger : (o : Option ℕ) → lookup rule.id start ≡ o → IsOver o (event_of c ts rule d)
      byTrigger none e = tt
      byTrigger (some last) e = ground (arith, run.either rule.id)

  try_rule-IsRun :
      (sinks : Sinks) (start : Dict ℕ ℕ) (camera_id ts : ℕ) (ds : List Detection) (v : Evaluation)
      (rule : RuleDefinition)
      → IsRun start ts v
      → IsRun start ts (try_rule sinks camera_id ts ds v rule)
  unfolding try_rule
  try_rule-IsRun sinks start c ts ds v rule run =
      elim (Bool-cases (v.raised || not rule.enabled || is_on_cooldown v.last_triggered rule ts)) [
        | inl e ↦ rw (e, try_rule) run
        | inr e ↦
            rw (e, try_rule)
              (try_detections-IsRun sinks start c ts rule v ds
                (λ d. not_on_cooldown-IsOver start c ts v rule d run (ground arith)) run)
      ]

  try_rules-IsRun :
      (sinks : Sinks) (start : Dict ℕ ℕ) (camera_id ts : ℕ) (ds : List Detection) (v : Evaluation)
      (rules : List RuleDefinition)
      → IsRun start ts v
      → IsRun start ts (try_rules sinks camera_id ts ds v rules)
  unfolding try_rules
  try_rules-IsRun sinks start c ts ds v [] run = run
  try_rules-IsRun sinks start c ts ds v (rule ∷ rules) run =
      try_rules-IsRun sinks start c ts ds (try_rule sinks c ts ds v rule) rules
        (try_rule-IsRun sinks start c ts ds v rule run)

  evaluate-IsRun :
      (sinks : Sinks) (engine : RuleEngine) (camera_id : ℕ) (ds : List Detection) (ts : ℕ)
      → IsRun engine.last_triggered ts (evaluate sinks engine camera_id ds ts)
  unfolding evaluate
  evaluate-IsRun sinks engine c ds ts =
      try_rules-IsRun sinks engine.last_triggered c ts ds _ _
        (record { over = tt; held = tt; timed = tt; either = λ id. inl refl })

  -- A frame of a camera: its detections and its time.
  abbrev pub RuleFrame : Type 0
  RuleFrame = ℕ × List Detection × ℕ

  -- The events of one frame after the other; a raising sink ends only its own evaluation.
  unfoldable pub run : Sinks → RuleEngine → List RuleFrame → List RuleEventRecord
  run sinks engine [] = []
  run sinks engine ((camera_id, ds, ts) ∷ frames) =
      let v = evaluate sinks engine camera_id ds ts in
      v.events ++ run sinks (record engine { last_triggered = v.last_triggered }) frames

  -- The later event is of another rule, has no cooldown, or comes after its cooldown.
  abbrev pub IsSpaced : RuleEventRecord → RuleEventRecord → Type 0
  IsSpaced e later =
      (e.rule_id ≢ later.rule_id)
      ⊎ (later.cooldown_seconds ≡ 0)
      ⊎ (e.ts + later.cooldown_seconds * 1000000 ≤ later.ts)

  -- The rule was triggered at `ts` or later.
  abbrev IsSince : ℕ → Option ℕ → Type 0
  IsSince ts none = ⊥
  IsSince ts (some last) = ts ≤ last

  IsOver-IsSpaced :
      (e later : RuleEventRecord) (start : Dict ℕ ℕ)
      → IsSince e.ts (lookup e.rule_id start)
      → IsOver (lookup later.rule_id start) later
      → IsSpaced e later
  IsOver-IsSpaced e later start since over = elim (Bool-cases (e.rule_id == later.rule_id)) [
    | inl same ↦ inr (byTrigger (lookup later.rule_id start) (ground arith) over)
    | inr other ↦ inl (ground arith)
  ]
    where
      byTrigger :
          (o : Option ℕ)
          → IsSince e.ts o
          → IsOver o later
          → (later.cooldown_seconds ≡ 0) ⊎ (e.ts + later.cooldown_seconds * 1000000 ≤ later.ts)
      byTrigger none since over = absurd since
      byTrigger (some last) since over = ground arith

  run_since_lem :
      (sinks : Sinks) (engine : RuleEngine) (frames : List RuleFrame) (e : RuleEventRecord)
      → IsSince e.ts (lookup e.rule_id engine.last_triggered)
      → All (λ f. e.ts ≤ f.2) frames
      → All (IsSpaced e) (run sinks engine frames)
  unfolding run
  run_since_lem sinks engine [] e since later = tt
  run_since_lem sinks engine ((c, ds, ts) ∷ frames) e since later =
      let v = evaluate sinks engine c ds ts in
      let r = evaluate-IsRun sinks engine c ds ts in
      All-append (IsSpaced e) v.events _
        (All-imp _ _ v.events (λ x over. IsOver-IsSpaced e x engine.last_triggered since over)
          r.over)
        (run_since_lem sinks (record engine { last_triggered = v.last_triggered }) frames e
          (ground (arith, r.either e.rule_id)) later.1)

  -- Whatever the sinks do, an event of one frame and an event of the same rule of any later frame
  -- are at least the later event's cooldown apart, if no later frame has an earlier time.
  pub run-IsSpaced :
      (sinks : Sinks) (engine : RuleEngine) (camera_id : ℕ) (ds : List Detection) (ts : ℕ)
      (frames : List RuleFrame)
      → All (λ f. ts ≤ f.2) frames
      → let v = evaluate sinks engine camera_id ds ts in
        All
          (λ e.
            All
              (IsSpaced e)
              (run sinks (record engine { last_triggered = v.last_triggered }) frames))
          v.events
  run-IsSpaced sinks engine c ds ts frames later =
      let v = evaluate sinks engine c ds ts in
      let r = evaluate-IsRun sinks engine c ds ts in
      All-imp _ _ v.events
        (λ e at.
          run_since_lem sinks (record engine { last_triggered = v.last_triggered }) frames e
            (rw (at.1, at.0) (omega arith)) (rw at.0 later))
        (All-both _ _ v.events r.timed r.held)
