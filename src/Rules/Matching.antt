-- ===== src/Rules/Matching.antt =====
-- Which rules an engine holds.
use vision.Common.{
  ℕ, ap, sym, ◌≡◌, refl, ◌∙◌, Bool, ◌&&◌, List, [], ◌∷◌, ◌++◌, Dict, lookup, keep, ◌==◌,
  compare_nat, compare_string, compare_option, lookup-insert, nat_beq_iff, arith, append_assoc,
  append-nil,
}
use vision.Common.Float.{Floats}
use vision.Rules.{RuleDefinition, RuleEngine, rules_of, add_rule, add_rules, replace_rules}

module _ ⦃fl : Floats⦄ where
  abbrev applies_to : ℕ → RuleDefinition → Bool
  applies_to camera_id rule = rule.enabled && rule.camera_id == camera_id

  add_rule-rules_of :
      (by_camera : Dict ℕ (List RuleDefinition)) (rule : RuleDefinition) (camera_id : ℕ)
      → rules_of (add_rule by_camera rule) camera_id
        ≡ rules_of by_camera camera_id ++ keep (applies_to camera_id) (rule ∷ [])
  unfolding rules_of add_rule keep
  add_rule-rules_of by_camera rule c = ground (
    arith,
    append-nil (rules_of by_camera c),
    nat_beq_iff rule.camera_id c,
    lookup-insert rule.camera_id c (rules_of by_camera rule.camera_id ++ rule ∷ []) by_camera,
  )

  keep-cons :
      (p : RuleDefinition → Bool) (rule : RuleDefinition) (rules : List RuleDefinition)
      → keep p (rule ∷ rules) ≡ keep p (rule ∷ []) ++ keep p rules
  unfolding keep
  keep-cons p rule rules = ground arith

  add_rules-rules_of :
      (by_camera : Dict ℕ (List RuleDefinition)) (rules : List RuleDefinition) (camera_id : ℕ)
      → rules_of (add_rules by_camera rules) camera_id
        ≡ rules_of by_camera camera_id ++ keep (applies_to camera_id) rules
  unfolding add_rules keep
  add_rules-rules_of by_camera [] c = sym (append-nil (rules_of by_camera c))
  add_rules-rules_of by_camera (rule ∷ rules) c =
      rw
        (
          add_rules-rules_of (add_rule by_camera rule) rules c,
          add_rule-rules_of by_camera rule c,
          keep-cons (applies_to c) rule rules,
        )
        (append_assoc (rules_of by_camera c) (keep (applies_to c) (rule ∷ []))
          (keep (applies_to c) rules))

  nothing-rules_of : (camera_id : ℕ) → rules_of [] camera_id ≡ []
  unfolding rules_of lookup
  nothing-rules_of c = refl

  -- After the rules of an engine are replaced, a camera has exactly the enabled ones among the new
  -- rules that are its own, in their order, whatever the engine held before.
  pub replace_rules-rules_of :
      (engine : RuleEngine) (rules : List RuleDefinition) (camera_id : ℕ)
      → rules_of (replace_rules engine rules).rules_by_camera camera_id
        ≡ keep (λ rule. rule.enabled && rule.camera_id == camera_id) rules
  unfolding replace_rules
  replace_rules-rules_of engine rules c =
      add_rules-rules_of [] rules c
      ∙ ap (λ old. old ++ keep (applies_to c) rules) (nothing-rules_of c)
