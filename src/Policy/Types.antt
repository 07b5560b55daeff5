-- ===== src/Policy/Types.antt =====
-- crates/blindfold-policy/src/lib.rs: requests, rules and decisions. An instant of `SystemTime` is a
-- number, and a `RuleId` is its number.
use blindfold.Prelude.{ℕ, Bool, true, false, Option, none, some, List}
use blindfold.Core.Types.{SecretKind, Destination, Action, Sensitivity, Source}

pub data Preset : Type 0 where
  chill balanced strict ci : Preset

pub data Operation : Type 0 where
  disclose restore : Operation

abbrev pub operation_rank : Operation → ℕ
operation_rank disclose = 0
operation_rank restore = 1

pub data SourceContext : Type 0 where
  environment file standard_input process_output request response tool : SourceContext
  unknown unsupported : SourceContext

abbrev pub source_rank : SourceContext → ℕ
source_rank environment = 0
source_rank file = 1
source_rank standard_input = 2
source_rank process_output = 3
source_rank request = 4
source_rank response = 5
source_rank tool = 6
source_rank unknown = 7
source_rank unsupported = 8

-- `From<&Source>`: names and paths are dropped.
unfoldable pub from_source : Source → SourceContext
from_source (Source.environment_variable name) = environment
from_source (Source.file path) = file
from_source Source.standard_input = standard_input
from_source Source.process_output = process_output
from_source Source.request = request
from_source Source.response = response
from_source (Source.tool name) = tool
from_source Source.unknown = unknown

pub record Request : Type 0 where
  pub operation : Operation
  pub kind : SecretKind
  pub sensitivity : Sensitivity
  pub source : SourceContext
  pub destination : Destination

unfoldable pub request_from_source :
    Operation → SecretKind → Sensitivity → Source → Destination → Request
unfolding from_source
request_from_source operation kind sensitivity source destination = record {
  operation = operation;
  kind = kind;
  sensitivity = sensitivity;
  source = from_source source;
  destination = destination;
}

pub data DecisionAction : Type 0 where
  allow redact warn block restore : DecisionAction

unfoldable pub as_core_action : DecisionAction → Action
as_core_action allow = Action.allow
as_core_action restore = Action.allow
as_core_action redact = Action.replace_with_safe_ref
as_core_action warn = Action.warn
as_core_action block = Action.block

pub data AllowReason : Type 0 where
  required_operation compatibility test_fixture incident_response : AllowReason

abbrev pub RuleId : Type 0
RuleId = ℕ

pub record RuleScope : Type 0 where
  pub operation : Operation
  pub destination : Destination
  pub kind : Option SecretKind
  pub sensitivity : Option Sensitivity
  pub source : Option SourceContext

-- `RuleScope::new`, and the restrictions that `with_kind`, `with_sensitivity` and `with_source` add.
abbrev pub new_scope : Operation → Destination → RuleScope
new_scope operation destination = record {
  operation = operation;
  destination = destination;
  kind = none;
  sensitivity = none;
  source = none;
}

abbrev pub with_kind : RuleScope → SecretKind → RuleScope
with_kind scope kind = record scope { kind = some kind }

abbrev pub with_sensitivity : RuleScope → Sensitivity → RuleScope
with_sensitivity scope sensitivity = record scope { sensitivity = some sensitivity }

abbrev pub with_source : RuleScope → SourceContext → RuleScope
with_source scope source = record scope { source = some source }

pub record DenyRule : Type 0 where
  pub id : RuleId
  pub scope : RuleScope

pub record AllowRule : Type 0 where
  pub id : RuleId
  pub scope : RuleScope
  pub reason : AllowReason
  pub expires_at : Option ℕ

abbrev pub new_allow : RuleId → RuleScope → AllowReason → AllowRule
new_allow id scope reason = record { id = id; scope = scope; reason = reason; expires_at = none }

abbrev pub expiring_at : AllowRule → ℕ → AllowRule
expiring_at rule instant = record rule { expires_at = some instant }

pub data DecisionBasis : Type 0 where
  invariant invalid_policy explicit_deny explicit_allow preset : DecisionBasis

pub record Explanation : Type 0 where
  pub preset : Preset
  pub operation : Operation
  pub kind : SecretKind
  pub sensitivity : Sensitivity
  pub source : SourceContext
  pub destination : Destination
  pub action : DecisionAction
  pub basis : DecisionBasis
  pub rule_id : Option RuleId
  pub allow_reason : Option AllowReason

pub record Decision : Type 0 where
  pub action : DecisionAction
  pub explanation : Explanation

abbrev is_block : DecisionAction → Bool
is_block block = true
is_block _ = false

unfoldable pub permits_operation : Decision → Bool
permits_operation d = elim (is_block d.action) [ true ↦ false | false ↦ true ]

pub data PolicyError : Type 0 where
  duplicate_rule_id untrusted_restore_destination overbroad_allow_rule : PolicyError
  unsupported_destination unsupported_source : PolicyError

pub record Policy : Type 0 where
  pub preset : Preset
  pub deny_rules : List DenyRule
  pub allow_rules : List AllowRule
  pub validation_error : Option PolicyError
