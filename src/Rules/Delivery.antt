-- ===== src/Rules/Delivery.antt =====
-- What the publisher and the store have got when an evaluation ends.
use vision.Common.{
  ℕ, ◌≡◌, refl, ◌⊎◌, inl, inr, Bool, true, false, not, ◌||◌, List, [], ◌∷◌, ◌++◌, Bool-cases, arith,
  ap,
}
use vision.Common.Float.{Floats}
use vision.Detection.{Detection}
use vision.Rules.{
  RuleDefinition, RuleEventRecord, RuleEngine, Evaluation, Sinks, is_on_cooldown, matches_rule,
  event_of, store_event, fire, try_detection, try_detections, try_rule, try_rules, evaluate,
}

module _ ⦃fl : Floats⦄ where
  -- What was published beyond what was stored. Of an evaluation that raised, either the publisher
  -- raised for an event, which nobody got, or the store raised for the one that was published last.
  abbrev pub IsSent : Sinks → Bool → List RuleEventRecord → List RuleEventRecord → Type 0
  IsSent sinks false published stored = published ≡ stored
  IsSent sinks true published stored =
      ((e : RuleEventRecord) × (sinks.publishes e ≡ false) × (published ≡ stored))
      ⊎ ((e : RuleEventRecord) × (sinks.publishes e ≡ true)
          × (sinks.records e ≡ false)
          × (published ≡ stored ++ e ∷ []))

  pub record IsDelivered (sinks : Sinks) (v : Evaluation) : Type 0 where
    pub returned : v.events ≡ v.stored
    pub sent : IsSent sinks v.raised v.published v.stored

  fire-IsDelivered :
      (sinks : Sinks) (v : Evaluation) (event : RuleEventRecord)
      → v.raised ≡ false
      → IsDelivered sinks v
      → IsDelivered sinks (fire sinks v event)
  unfolding fire store_event
  fire-IsDelivered sinks v event running d =
      let even : v.published ≡ v.stored = ground (arith, d.sent) in
      elim (Bool-cases (sinks.publishes event)) [
        | inl p ↦ elim (Bool-cases (sinks.records event)) [
          | inl r ↦
              rw (p, r, fire, store_event)
                (record {
                  returned = ap (λ es. es ++ event ∷ []) d.returned;
                  sent = rw running (ap (λ es. es ++ event ∷ []) even);
                })
          | inr r ↦
              rw (p, r, fire, store_event)
                (record {
                  returned = d.returned;
                  sent = inr (event, p, r, ap (λ es. es ++ event ∷ []) even);
                })
        ]
        | inr p ↦ rw (p, fire) (record { returned = d.returned; sent = inl (event, p, even) })
      ]

  try_detection-IsDelivered :
      (sinks : Sinks) (camera_id ts : ℕ) (rule : RuleDefinition) (v : Evaluation) (d : Detection)
      → IsDelivered sinks v
      → IsDelivered sinks (try_detection sinks camera_id ts rule v d)
  unfolding try_detection
  try_detection-IsDelivered sinks c ts rule v d h =
      elim (Bool-cases (v.raised || not (matches_rule rule d))) [
        | inl e ↦ rw (e, try_detection) h
        | inr e ↦
            rw (e, try_detection) (fire-IsDelivered sinks v (event_of c ts rule d) (ground arith) h)
      ]

  try_detections-IsDelivered :
      (sinks : Sinks) (camera_id ts : ℕ) (rule : RuleDefinition) (v : Evaluation)
      (ds : List Detection)
      → IsDelivered sinks v
      → IsDelivered sinks (try_detections sinks camera_id ts rule v ds)
  unfolding try_detections
  try_detections-IsDelivered sinks c ts rule v [] h = h
  try_detections-IsDelivered sinks c ts rule v (d ∷ ds) h =
      try_detections-IsDelivered sinks c ts rule (try_detection sinks c ts rule v d) ds
        (try_detection-IsDelivered sinks c ts rule v d h)

  try_rules-IsDelivered :
      (sinks : Sinks) (camera_id ts : ℕ) (ds : List Detection) (v : Evaluation)
      (rules : List RuleDefinition)
      → IsDelivered sinks v
      → IsDelivered sinks (try_rules sinks camera_id ts ds v rules)
  unfolding try_rules try_rule
  try_rules-IsDelivered sinks c ts ds v [] h = h
  try_rules-IsDelivered sinks c ts ds v (rule ∷ rules) h =
      try_rules-IsDelivered sinks c ts ds (try_rule sinks c ts ds v rule) rules
        (elim (Bool-cases
          (v.raised || not rule.enabled || is_on_cooldown v.last_triggered rule ts)) [
            | inl e ↦ rw (e, try_rule) h
            | inr e ↦ rw (e, try_rule) (try_detections-IsDelivered sinks c ts rule v ds h)
          ])

  -- The events that an evaluation returns are those that were stored, in order. Without an exception
  -- the publisher got the same ones. With one, either the publisher raised for an event and got no
  -- more than was stored, or it got one more, for which the store raised.
  pub evaluate-IsDelivered :
      (sinks : Sinks) (engine : RuleEngine) (camera_id : ℕ) (ds : List Detection) (ts : ℕ)
      → IsDelivered sinks (evaluate sinks engine camera_id ds ts)
  unfolding evaluate
  evaluate-IsDelivered sinks engine c ds ts =
      try_rules-IsDelivered sinks c ts ds _ _ (record { returned = refl; sent = refl })
