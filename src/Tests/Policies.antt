-- ===== src/Tests/Policies.antt =====
-- A policy of one deny rule and two allow rules, and the requests that they decide.
use mathlib.Core.List.Permᴰ
use blindfold.Prelude.{ℕ, ◌≡◌, ◌<◌, refl, arith, ◌↔◌, none, some, List, [], ◌∷◌, Permᴰ}
use blindfold.Core.Types.{SecretKind, Destination, Sensitivity}
use blindfold.Policy.Types.{
  chill, balanced, Operation, disclose, restore, SourceContext, Request, DecisionAction,
  AllowReason, required_operation, RuleScope, DenyRule, AllowRule, Policy,
}
use blindfold.Policy.Rules.{validate_rules}
use blindfold.Policy.Rules.Validation.{IsTrusted, IsAcceptable, validate_rules_iff}
use blindfold.Policy.Presets.Order.{strictness}
use blindfold.Policy.Engine.{new, evaluate_at}
use blindfold.Policy.Engine.Precedence.{Decides, evaluate_at-Decides}
use blindfold.Policy.Engine.Invariants.{IsForbidden, evaluate_at-protects}
use blindfold.Policy.Engine.Safety.{
  Cites, evaluate_at-restore, evaluate_at-hides_secrets, new-fail_closed,
}
use blindfold.Policy.Engine.Independence.{evaluate_at-perm}

abbrev key_scope : Operation → Destination → RuleScope
key_scope operation destination = record {
  operation = operation;
  destination = destination;
  kind = some SecretKind.api_key;
  sensitivity = none;
  source = none;
}

abbrev no_files : DenyRule
no_files = record { id = 7; scope = key_scope disclose Destination.file }

abbrev restore_to_child : AllowRule
restore_to_child = record {
  id = 3;
  scope = key_scope restore Destination.child_process;
  reason = required_operation;
  expires_at = some 100;
}

abbrev show_user : AllowRule
show_user = record {
  id = 5;
  scope = key_scope disclose Destination.user;
  reason = AllowReason.test_fixture;
  expires_at = none;
}

abbrev deny_rules : List DenyRule
deny_rules = no_files ∷ []

abbrev allow_rules : List AllowRule
allow_rules = restore_to_child ∷ show_user ∷ []

abbrev sample_policy : Policy
sample_policy = new balanced deny_rules allow_rules

abbrev key_request : Operation → Destination → Request
key_request operation destination = record {
  operation = operation;
  kind = SecretKind.api_key;
  sensitivity = Sensitivity.secret;
  source = SourceContext.file;
  destination = destination;
}

accepted_run : validate_rules deny_rules allow_rules ≡ none
unfolding validate_rules
accepted_run = refl

restore_run :
    (evaluate_at sample_policy (key_request restore Destination.child_process) 99).action
    ≡ DecisionAction.restore
unfolding evaluate_at new
restore_run = refl

expired_run :
    (evaluate_at sample_policy (key_request restore Destination.child_process) 100).action
    ≡ DecisionAction.block
unfolding evaluate_at new
expired_run = refl

user_run :
    (evaluate_at sample_policy (key_request disclose Destination.user) 0).action
    ≡ DecisionAction.allow
unfolding evaluate_at new
user_run = refl

user_strictness :
    strictness (evaluate_at sample_policy (key_request disclose Destination.user) 0).action < 2
unfolding evaluate_at new
user_strictness = omega arith

validate_rules_iff_example :
    (validate_rules deny_rules allow_rules ≡ none) ↔ IsAcceptable deny_rules allow_rules
validate_rules_iff_example = validate_rules_iff deny_rules allow_rules

evaluate_at-Decides_example :
    Decides sample_policy
      (key_request disclose Destination.user)
      0
      (evaluate_at sample_policy (key_request disclose Destination.user) 0)
evaluate_at-Decides_example =
    evaluate_at-Decides sample_policy (key_request disclose Destination.user) 0

evaluate_at-protects_example :
    ((p : Policy) (now : ℕ)
      → (evaluate_at p (key_request disclose Destination.log) now).action ≡ DecisionAction.block)
    ↔ IsForbidden (key_request disclose Destination.log)
evaluate_at-protects_example = evaluate_at-protects (key_request disclose Destination.log)

evaluate_at-restore_example :
    ((key_request restore Destination.child_process).operation ≡ restore)
    × IsTrusted Destination.child_process
    × ((rule : AllowRule) × Cites sample_policy
          (key_request restore Destination.child_process)
          99
          (evaluate_at sample_policy (key_request restore Destination.child_process) 99)
          rule)
evaluate_at-restore_example =
    evaluate_at-restore sample_policy (key_request restore Destination.child_process) 99 restore_run

evaluate_at-hides_secrets_example :
    (rule : AllowRule) × Cites sample_policy
      (key_request disclose Destination.user)
      0
      (evaluate_at sample_policy (key_request disclose Destination.user) 0)
      rule
evaluate_at-hides_secrets_example =
    evaluate_at-hides_secrets sample_policy (key_request disclose Destination.user) 0 (omega arith)
      user_strictness

-- The same rule twice.
twice_refused : IsAcceptable (no_files ∷ no_files ∷ []) [] → ⊥
twice_refused a = a.distinct.0.0 refl

new-fail_closed_example :
    (evaluate_at
      (new chill (no_files ∷ no_files ∷ []) [])
      (key_request disclose Destination.user)
      0).action
    ≡ DecisionAction.block
new-fail_closed_example =
    new-fail_closed chill (no_files ∷ no_files ∷ []) [] (key_request disclose Destination.user) 0
      twice_refused

evaluate_at-perm_example :
    evaluate_at
      (new balanced deny_rules (restore_to_child ∷ show_user ∷ []))
      (key_request disclose Destination.user)
      0
    ≡ evaluate_at
        (new balanced deny_rules (show_user ∷ restore_to_child ∷ []))
        (key_request disclose Destination.user)
        0
evaluate_at-perm_example =
    evaluate_at-perm balanced (Permᴰ.refl deny_rules) (Permᴰ.swap refl refl)
      (key_request disclose Destination.user) 0
