-- ===== src/Policy/Presets/Order.antt =====
-- The presets against each other, and against secrets.
use blindfold.Prelude.{ℕ, ◌≤◌, ◌≢◌, arith}
use blindfold.Core.Types.{Sensitivity, Destination, sensitivity_rank}
use blindfold.Policy.Types.{Preset, chill, balanced, strict, ci, Request, DecisionAction}
use blindfold.Policy.Presets.{
  chill_action, balanced_action, strict_action, ci_action, preset_action, redact_local,
  table_action,
}

-- How much an action withholds.
abbrev pub strictness : DecisionAction → ℕ
strictness DecisionAction.allow = 0
strictness DecisionAction.restore = 0
strictness DecisionAction.warn = 1
strictness DecisionAction.redact = 2
strictness DecisionAction.block = 3

balanced_action-stricter :
    (s : Sensitivity) (d : Destination)
    → strictness (chill_action s d) ≤ strictness (balanced_action s d)
unfolding chill_action balanced_action
balanced_action-stricter Sensitivity.internal d = ground arith
balanced_action-stricter Sensitivity.confidential d = ground arith
balanced_action-stricter _ d = omega arith

strict_action-stricter :
    (s : Sensitivity) (d : Destination)
    → strictness (balanced_action s d) ≤ strictness (strict_action s d)
unfolding balanced_action strict_action
strict_action-stricter Sensitivity.internal d = ground arith
strict_action-stricter Sensitivity.confidential d = ground arith
strict_action-stricter _ d = omega arith

-- The default of `balanced` is at least as strict as that of `chill`, and the default of `strict` at
-- least as strict as that of `balanced`, for every request.
pub preset_action-stricter :
    (r : Request)
    → (strictness (preset_action chill r) ≤ strictness (preset_action balanced r))
      × (strictness (preset_action balanced r) ≤ strictness (preset_action strict r))
unfolding preset_action
preset_action-stricter r = ground (
  arith,
  balanced_action-stricter r.sensitivity r.destination,
  strict_action-stricter r.sensitivity r.destination,
)

-- A secret is at most redacted for the destinations on this machine.
redact_local-hides : (d : Destination) → 2 ≤ strictness (redact_local d)
redact_local-hides d = ground arith

table_action-hides :
    (preset : Preset) (s : Sensitivity) (d : Destination)
    → sensitivity_rank Sensitivity.secret ≤ sensitivity_rank s
    → 2 ≤ strictness (table_action preset s d)
unfolding chill_action balanced_action strict_action ci_action
table_action-hides chill s d h = ground (arith, redact_local-hides d)
table_action-hides balanced s d h = ground (arith, redact_local-hides d)
table_action-hides strict s d h = ground (arith, redact_local-hides d)
table_action-hides ci s d h = ground arith

-- In every preset the default for a request of sensitivity secret or above is to redact or to block.
pub preset_action-hides_secrets :
    (preset : Preset) (r : Request)
    → sensitivity_rank Sensitivity.secret ≤ sensitivity_rank r.sensitivity
    → strictness DecisionAction.redact ≤ strictness (preset_action preset r)
unfolding preset_action
preset_action-hides_secrets preset r h =
    ground (arith, table_action-hides preset r.sensitivity r.destination h)

local-no_restore : (d : Destination) → redact_local d ≢ DecisionAction.restore
local-no_restore d e = ground arith

table_action-no_restore :
    (preset : Preset) (s : Sensitivity) (d : Destination)
    → table_action preset s d ≢ DecisionAction.restore
unfolding chill_action balanced_action strict_action ci_action
table_action-no_restore chill s d e = ground (arith, local-no_restore d)
table_action-no_restore balanced s d e = ground (arith, local-no_restore d)
table_action-no_restore strict s d e = ground (arith, local-no_restore d)
table_action-no_restore ci s d e = ground arith

-- No preset's default is to restore.
pub preset_action-no_restore :
    (preset : Preset) (r : Request) → preset_action preset r ≢ DecisionAction.restore
unfolding preset_action
preset_action-no_restore preset r e =
    ground (arith, table_action-no_restore preset r.sensitivity r.destination)
