-- ===== src/Rules.antt =====
-- backend/src/argus/vision/rules.py: the rule engine of a worker. The publisher and the store are
-- protocols of the source: each event is passed to them, and either call may raise. Times are
-- microseconds; a UUID is a number. A cooldown is a natural number, as the API demands of one.
pub mod Matching
pub mod Cooldown
pub mod Delivery
mod Examples
use vision.Common.{
  ℕ, ◌+◌, ◌*◌, String, Bool, true, false, not, ◌&&◌, ◌||◌, Option, none, some, List, [], ◌∷◌, ◌++◌,
  Dict, lookup, insert, contains, all, if◌then◌else◌, str_eq, ltb, leb, ◌==◌, compare_nat,
  compare_string, compare_option,
}
use vision.Common.Float.{Floats, Float}
use vision.Detection.{Detection, BoundingBox, Value, null, value_beq}

pub data RuleAction : Type 0 where
  count alert record_clip webhook : RuleAction

module _ ⦃fl : Floats⦄ where
  -- The keys that the engine reads of a predicate; a missing one is `none`.
  pub record Predicate : Type 0 where
    pub class_names : Option (List String)
    pub zone_ids : Option (List (Option String))
    pub min_confidence : Option Float
    pub attributes : Option (Dict String Value)

  pub record RuleDefinition : Type 0 where
    pub id : ℕ
    pub camera_id : ℕ
    pub name : String
    pub predicate : Predicate
    pub action : RuleAction
    pub enabled : Bool
    pub incident_type : Option String
    pub severity : String
    pub cooldown_seconds : ℕ
    pub zone_id : Option String
    pub webhook_url : Option String
    pub rule_hash : Option String

  -- The `detection` dictionary of an event.
  pub record DetectionPayload : Type 0 where
    pub class_name : String
    pub confidence : Float
    pub bbox : BoundingBox
    pub track_id : Option ℕ
    pub zone_id : Option String
    pub attributes : Dict String Value

  pub record RuleEventRecord : Type 0 where
    pub rule_id : ℕ
    pub camera_id : ℕ
    pub action : RuleAction
    pub name : String
    pub incident_type : Option String
    pub severity : Option String
    pub cooldown_seconds : ℕ
    pub predicate : Predicate
    pub rule_hash : Option String
    pub ts : ℕ
    pub detection : DetectionPayload

  pub record RuleEngine : Type 0 where
    pub rules_by_camera : Dict ℕ (List RuleDefinition)
    pub last_triggered : Dict ℕ ℕ

  -- `mapping.get(key, [])`
  unfoldable pub rules_of : Dict ℕ (List RuleDefinition) → ℕ → List RuleDefinition
  rules_of by_camera camera_id = elim (lookup camera_id by_camera) [
    | none ↦ []
    | some rules ↦ rules
  ]

  unfoldable pub add_rule :
      Dict ℕ (List RuleDefinition) → RuleDefinition → Dict ℕ (List RuleDefinition)
  add_rule by_camera rule =
      if rule.enabled
      then insert rule.camera_id (rules_of by_camera rule.camera_id ++ rule ∷ []) by_camera
      else by_camera

  unfoldable pub add_rules :
      Dict ℕ (List RuleDefinition) → List RuleDefinition → Dict ℕ (List RuleDefinition)
  add_rules by_camera [] = by_camera
  add_rules by_camera (rule ∷ rules) = add_rules (add_rule by_camera rule) rules

  unfoldable pub replace_rules : RuleEngine → List RuleDefinition → RuleEngine
  replace_rules engine rules = record { rules_by_camera = add_rules [] rules; last_triggered = [] }

  unfoldable pub init : List RuleDefinition → RuleEngine
  init rules = replace_rules (record { rules_by_camera = []; last_triggered = [] }) rules

  unfoldable pub is_on_cooldown : Dict ℕ ℕ → RuleDefinition → ℕ → Bool
  is_on_cooldown last_triggered rule ts = elim (lookup rule.id last_triggered) [
    | none ↦ false
    | some last ↦
        not (leb rule.cooldown_seconds 0) && ltb ts (last + rule.cooldown_seconds * 1000000)
  ]

  -- `names and value not in names` fails.
  abbrev pub allows_class : Option (List String) → String → Bool
  allows_class none name = true
  allows_class (some []) name = true
  allows_class (some (n ∷ names)) name = contains (n ∷ names) name

  abbrev pub allows_zone : Option (List (Option String)) → Option String → Bool
  allows_zone none value = true
  allows_zone (some []) value = true
  allows_zone (some (z ∷ zones)) value = contains (z ∷ zones) value

  abbrev pub is_in_zone : Option String → Option String → Bool
  is_in_zone none value = true
  is_in_zone (some wanted) value = value == some wanted

  abbrev pub is_confident : Option Float → Float → Bool
  is_confident none confidence = true
  is_confident (some least) confidence = not (fl.lt confidence least)

  -- `attributes.get(name) == expected`, where a missing name gives `None`.
  abbrev pub value_of : Option Value → Value
  value_of none = null
  value_of (some value) = value

  unfoldable pub has_attributes : Dict String Value → Dict String Value → Bool
  has_attributes attributes [] = true
  has_attributes attributes ((name, expected) ∷ rest) =
      value_beq (value_of (lookup name attributes)) expected && has_attributes attributes rest

  abbrev pub required_of : Option (Dict String Value) → Dict String Value
  required_of none = []
  required_of (some required) = required

  unfoldable pub matches_rule : RuleDefinition → Detection → Bool
  unfolding has_attributes
  matches_rule rule d =
      allows_class rule.predicate.class_names d.class_name
      && allows_zone rule.predicate.zone_ids d.zone_id
      && is_in_zone rule.zone_id d.zone_id
      && is_confident rule.predicate.min_confidence d.confidence
      && has_attributes d.attributes (required_of rule.predicate.attributes)

  unfoldable pub event_of : ℕ → ℕ → RuleDefinition → Detection → RuleEventRecord
  event_of camera_id ts rule d = record {
    rule_id = rule.id;
    camera_id = camera_id;
    action = rule.action;
    name = rule.name;
    incident_type = rule.incident_type;
    severity = some rule.severity;
    cooldown_seconds = rule.cooldown_seconds;
    predicate = rule.predicate;
    rule_hash = rule.rule_hash;
    ts = ts;
    detection = record {
      class_name = d.class_name;
      confidence = d.confidence;
      bbox = d.bbox;
      track_id = d.track_id;
      zone_id = d.zone_id;
      attributes = d.attributes;
    };
  }

  -- Whether the publisher and the store take an event, or raise.
  pub record Sinks : Type 0 where
    pub publishes : RuleEventRecord → Bool
    pub records : RuleEventRecord → Bool

  -- An evaluation under way: what was published and stored, and whether a call raised, which ends it.
  pub record Evaluation : Type 0 where
    pub last_triggered : Dict ℕ ℕ
    pub published : List RuleEventRecord
    pub stored : List RuleEventRecord
    pub events : List RuleEventRecord
    pub raised : Bool

  unfoldable pub store_event : Sinks → Evaluation → RuleEventRecord → Evaluation
  store_event sinks v event =
      if sinks.records event
      then record v {
        stored = v.stored ++ event ∷ [];
        last_triggered = insert event.rule_id event.ts v.last_triggered;
        events = v.events ++ event ∷ [];
      }
      else record v { raised = true }

  unfoldable pub fire : Sinks → Evaluation → RuleEventRecord → Evaluation
  unfolding store_event
  fire sinks v event =
      if sinks.publishes event
      then store_event sinks (record v { published = v.published ++ event ∷ [] }) event
      else record v { raised = true }

  unfoldable pub try_detection :
      Sinks → ℕ → ℕ → RuleDefinition → Evaluation → Detection → Evaluation
  try_detection sinks camera_id ts rule v d =
      if v.raised || not (matches_rule rule d)
      then v
      else fire sinks v (event_of camera_id ts rule d)

  unfoldable pub try_detections :
      Sinks → ℕ → ℕ → RuleDefinition → Evaluation → List Detection → Evaluation
  try_detections sinks camera_id ts rule v [] = v
  try_detections sinks camera_id ts rule v (d ∷ ds) =
      try_detections sinks camera_id ts rule (try_detection sinks camera_id ts rule v d) ds

  unfoldable pub try_rule :
      Sinks → ℕ → ℕ → List Detection → Evaluation → RuleDefinition → Evaluation
  try_rule sinks camera_id ts detections v rule =
      if v.raised || not rule.enabled || is_on_cooldown v.last_triggered rule ts
      then v
      else try_detections sinks camera_id ts rule v detections

  unfoldable pub try_rules :
      Sinks → ℕ → ℕ → List Detection → Evaluation → List RuleDefinition → Evaluation
  try_rules sinks camera_id ts detections v [] = v
  try_rules sinks camera_id ts detections v (rule ∷ rules) =
      try_rules sinks camera_id ts detections (try_rule sinks camera_id ts detections v rule) rules

  -- `evaluate`; the engine after it holds the evaluation's `last_triggered`.
  unfoldable pub evaluate : Sinks → RuleEngine → ℕ → List Detection → ℕ → Evaluation
  evaluate sinks engine camera_id detections ts =
      let begun : Evaluation = record {
        last_triggered = engine.last_triggered;
        published = [];
        stored = [];
        events = [];
        raised = false;
      } in
      try_rules sinks camera_id ts detections begun (rules_of engine.rules_by_camera camera_id)
