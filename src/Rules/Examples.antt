-- ===== src/Rules/Examples.antt =====
-- The theorems of the rule engine at concrete inputs, over signed thousandths.
use vision.Common.{
  ◌≡◌, refl, ◌&&◌, ◌==◌, keep, true, false, none, some, [], ◌∷◌, All, compare_nat, arith,
}
use vision.Common.Fixed.{pos, fixed}
use vision.Detection.{Detection, flag, number, text, value_beq}
use vision.Rules.{alert, RuleDefinition, RuleEngine, Sinks, rules_of, replace_rules, evaluate}
use vision.Rules.Matching.{replace_rules-rules_of}
use vision.Rules.Cooldown.{run, IsSpaced, run-IsSpaced}
use vision.Rules.Delivery.{IsDelivered, evaluate-IsDelivered}

abbrev person : Detection
person = record {
  class_name = "person";
  confidence = pos 900;
  bbox = (pos 0, pos 0, pos 50000, pos 100000);
  class_id = none;
  track_id = some 7;
  attributes = [];
  zone_id = some "gate";
  speed_kph = none;
  direction_deg = none;
}

abbrev intrusion : RuleDefinition
intrusion = record {
  id = 1;
  camera_id = 7;
  name = "intrusion";
  predicate = record {
    class_names = some ("person" ∷ []);
    zone_ids = none;
    min_confidence = some (pos 500);
    attributes = none;
  };
  action = alert;
  enabled = true;
  incident_type = none;
  severity = "warning";
  cooldown_seconds = 30;
  zone_id = none;
  webhook_url = none;
  rule_hash = none;
}

-- Both sinks take every event.
abbrev sinks : Sinks
sinks = record { publishes = λ event. true; records = λ event. true }

abbrev engine : RuleEngine
engine = record { rules_by_camera = (7, intrusion ∷ []) ∷ []; last_triggered = [] }

-- True is 1, and 1 is 1.0; a text is no number.
true_is_one :
    (value_beq (flag true) (number false 1 0) ≡ true)
    × (value_beq (number false 1 0) (number false 2 1) ≡ true)
    × (value_beq (text "1") (number false 1 0) ≡ false)
unfolding value_beq
true_is_one = (refl, refl, refl)

replace_rules-rules_of_example :
    rules_of
      (replace_rules engine (record intrusion { enabled = false } ∷ intrusion ∷ [])).rules_by_camera
      7
    ≡ keep
        (λ rule. rule.enabled && rule.camera_id == 7)
        (record intrusion { enabled = false } ∷ intrusion ∷ [])
replace_rules-rules_of_example =
    replace_rules-rules_of engine (record intrusion { enabled = false } ∷ intrusion ∷ []) 7

evaluate-IsDelivered_example :
    IsDelivered sinks (evaluate sinks engine 7 (person ∷ person ∷ []) 1000000)
evaluate-IsDelivered_example = evaluate-IsDelivered sinks engine 7 (person ∷ person ∷ []) 1000000

run-IsSpaced_example :
    let v = evaluate sinks engine 7 (person ∷ []) 1000000 in
    All
      (λ e. All (IsSpaced e) (
        run sinks
          (record engine { last_triggered = v.last_triggered })
          ((7, person ∷ [], 2000000) ∷ (7, person ∷ [], 40000000) ∷ [])))
      v.events
run-IsSpaced_example =
    run-IsSpaced sinks engine 7 (person ∷ []) 1000000
      ((7, person ∷ [], 2000000) ∷ (7, person ∷ [], 40000000) ∷ []) (omega arith, (omega arith, tt))
