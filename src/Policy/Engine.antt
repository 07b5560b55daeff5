-- ===== src/Policy/Engine.antt =====
-- crates/blindfold-policy/src/lib.rs: `Policy::new` and `Policy::evaluate_at`.
pub mod Precedence
pub mod Invariants
pub mod Safety
pub mod Independence
use blindfold.Prelude.{ℕ, Bool, true, false, ◌&&◌, Option, none, some, List, []}
use blindfold.Prelude.Selection.{filter, min_by_key}
use blindfold.Policy.Types.{
  Preset, Operation, disclose, restore, Request, DecisionAction, AllowReason, RuleId, DenyRule,
  AllowRule, DecisionBasis, Decision, PolicyError, Policy,
}
use blindfold.Policy.Rules.{matches, is_active, violates_invariant, validate_rules}
use blindfold.Policy.Presets.{preset_action}

unfoldable pub new : Preset → List DenyRule → List AllowRule → Policy
unfolding validate_rules
new preset deny_rules allow_rules = record {
  preset = preset;
  deny_rules = deny_rules;
  allow_rules = allow_rules;
  validation_error = validate_rules deny_rules allow_rules;
}

-- `Policy::preset`
unfoldable pub of_preset : Preset → Policy
unfolding new
of_preset preset = new preset [] []

abbrev rule_id_of : Option (RuleId × Option AllowReason) → Option RuleId
rule_id_of none = none
rule_id_of (some (id, reason)) = some id

abbrev reason_of : Option (RuleId × Option AllowReason) → Option AllowReason
reason_of none = none
reason_of (some (id, reason)) = reason

-- `Policy::decision`
abbrev pub decision :
    Policy
    → Request
    → DecisionAction
    → DecisionBasis
    → Option (RuleId × Option AllowReason)
    → Decision
decision p r action basis rule = record {
  action = action;
  explanation = record {
    preset = p.preset;
    operation = r.operation;
    kind = r.kind;
    sensitivity = r.sensitivity;
    source = r.source;
    destination = r.destination;
    action = action;
    basis = basis;
    rule_id = rule_id_of rule;
    allow_reason = reason_of rule;
  };
}

abbrev pub granted : Operation → DecisionAction
granted disclose = DecisionAction.allow
granted restore = DecisionAction.restore

-- The deny rule, or the active allow rule, with the least identifier of those that match.
unfoldable pub deny_match : Policy → Request → Option DenyRule
unfolding matches filter min_by_key
deny_match p r = min_by_key (λ rule. rule.id) (filter (λ rule. matches rule.scope r) p.deny_rules)

unfoldable pub allow_match : Policy → Request → ℕ → Option AllowRule
unfolding matches is_active filter min_by_key
allow_match p r now =
    min_by_key (λ rule. rule.id)
      (filter (λ rule. matches rule.scope r && is_active rule now) p.allow_rules)

abbrev pub by_preset : Policy → Request → Decision
by_preset p r = decision p r (preset_action p.preset r) DecisionBasis.preset none

abbrev pub by_allow : Policy → Request → Option AllowRule → Decision
by_allow p r none = by_preset p r
by_allow p r (some rule) =
    decision p r (granted r.operation) DecisionBasis.explicit_allow
      (some (rule.id, some rule.reason))

abbrev pub by_deny : Policy → Request → ℕ → Option DenyRule → Decision
by_deny p r now none = by_allow p r (allow_match p r now)
by_deny p r now (some rule) =
    decision p r DecisionAction.block DecisionBasis.explicit_deny (some (rule.id, none))

abbrev pub by_validity : Policy → Request → ℕ → Option PolicyError → Decision
by_validity p r now none = by_deny p r now (deny_match p r)
by_validity p r now (some e) = decision p r DecisionAction.block DecisionBasis.invalid_policy none

-- The early returns in their order.
unfoldable pub evaluate_at : Policy → Request → ℕ → Decision
unfolding violates_invariant deny_match allow_match preset_action
evaluate_at p r now = elim (violates_invariant r) [
  | true ↦ decision p r DecisionAction.block DecisionBasis.invariant none
  | false ↦ by_validity p r now p.validation_error
]
