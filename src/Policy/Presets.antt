-- ===== src/Policy/Presets.antt =====
-- crates/blindfold-policy/src/lib.rs: what a preset decides when no rule does.
pub mod Order
use blindfold.Prelude.{Bool, true, false, ◌&&◌, ◌||◌, leb, ◌==◌, if◌then◌else◌}
use blindfold.Core.Types.{SecretKind, Destination, Sensitivity, kind_rank, sensitivity_rank}
use blindfold.Policy.Types.{
  Preset, chill, balanced, strict, ci, restore, SourceContext, Request, DecisionAction,
  operation_rank, source_rank,
}

-- The inner matches of `chill_action`, `balanced_action` and `strict_action`.
abbrev chill_internal : Destination → DecisionAction
chill_internal Destination.model_provider = DecisionAction.redact
chill_internal Destination.log = DecisionAction.redact
chill_internal Destination.audit = DecisionAction.redact
chill_internal Destination.agent = DecisionAction.warn
chill_internal Destination.tool = DecisionAction.warn
chill_internal _ = DecisionAction.allow

abbrev chill_confidential : Destination → DecisionAction
chill_confidential Destination.child_process = DecisionAction.warn
chill_confidential Destination.file = DecisionAction.warn
chill_confidential Destination.user = DecisionAction.warn
chill_confidential Destination.trusted_local = DecisionAction.allow
chill_confidential _ = DecisionAction.redact

-- The local destinations get a redacted value, all others nothing.
abbrev pub redact_local : Destination → DecisionAction
redact_local Destination.child_process = DecisionAction.redact
redact_local Destination.file = DecisionAction.redact
redact_local Destination.user = DecisionAction.redact
redact_local Destination.trusted_local = DecisionAction.redact
redact_local _ = DecisionAction.block

unfoldable pub chill_action : Sensitivity → Destination → DecisionAction
chill_action Sensitivity.internal d = chill_internal d
chill_action Sensitivity.confidential d = chill_confidential d
chill_action Sensitivity.secret d = redact_local d
chill_action _ d = DecisionAction.block

abbrev balanced_internal : Destination → DecisionAction
balanced_internal Destination.child_process = DecisionAction.allow
balanced_internal Destination.file = DecisionAction.allow
balanced_internal Destination.user = DecisionAction.allow
balanced_internal Destination.trusted_local = DecisionAction.allow
balanced_internal _ = DecisionAction.redact

abbrev balanced_confidential : Destination → DecisionAction
balanced_confidential Destination.trusted_local = DecisionAction.allow
balanced_confidential _ = DecisionAction.redact

unfoldable pub balanced_action : Sensitivity → Destination → DecisionAction
balanced_action Sensitivity.internal d = balanced_internal d
balanced_action Sensitivity.confidential d = balanced_confidential d
balanced_action Sensitivity.secret d = redact_local d
balanced_action _ d = DecisionAction.block

abbrev strict_internal : Destination → DecisionAction
strict_internal Destination.child_process = DecisionAction.warn
strict_internal Destination.file = DecisionAction.warn
strict_internal Destination.user = DecisionAction.warn
strict_internal Destination.trusted_local = DecisionAction.warn
strict_internal _ = DecisionAction.redact

unfoldable pub strict_action : Sensitivity → Destination → DecisionAction
strict_action Sensitivity.internal d = strict_internal d
strict_action Sensitivity.confidential d = redact_local d
strict_action Sensitivity.secret d = redact_local d
strict_action _ d = DecisionAction.block

unfoldable pub ci_action : Sensitivity → DecisionAction
ci_action Sensitivity.internal = DecisionAction.redact
ci_action Sensitivity.confidential = DecisionAction.redact
ci_action _ = DecisionAction.block

abbrev unknown_source_action : Preset → DecisionAction
unknown_source_action chill = DecisionAction.redact
unknown_source_action balanced = DecisionAction.redact
unknown_source_action strict = DecisionAction.block
unknown_source_action ci = DecisionAction.block

abbrev pub table_action : Preset → Sensitivity → Destination → DecisionAction
table_action chill s d = chill_action s d
table_action balanced s d = balanced_action s d
table_action strict s d = strict_action s d
table_action ci s d = ci_action s

abbrev at_least : Sensitivity → Sensitivity → Bool
at_least bound s = leb (sensitivity_rank bound) (sensitivity_rank s)

abbrev comes_from : SourceContext → Request → Bool
comes_from c r = source_rank r.source == source_rank c

abbrev has_sensitivity : Sensitivity → Request → Bool
has_sensitivity s r = sensitivity_rank r.sensitivity == sensitivity_rank s

unfoldable pub preset_action : Preset → Request → DecisionAction
unfolding chill_action balanced_action strict_action ci_action
preset_action preset r =
    if operation_rank r.operation == operation_rank restore
    then DecisionAction.block
    else if has_sensitivity Sensitivity.public r
    then DecisionAction.allow
    else if has_sensitivity Sensitivity.restricted r
        || (kind_rank r.kind == kind_rank SecretKind.private_key
            && at_least Sensitivity.secret r.sensitivity)
    then DecisionAction.block
    else if comes_from SourceContext.unknown r
    then unknown_source_action preset
    else if comes_from SourceContext.environment r
        && at_least Sensitivity.confidential r.sensitivity
    then DecisionAction.redact
    else table_action preset r.sensitivity r.destination
