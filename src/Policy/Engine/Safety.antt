-- ===== src/Policy/Engine/Safety.antt =====
-- What no policy can decide, whatever its rules.
use blindfold.Prelude.{ℕ, ◌≡◌, ◌≢◌, refl, true, false, none, some, List, Memᴰ, arith, ◌≤◌, ◌<◌}
use blindfold.Core.Types.{Sensitivity, sensitivity_rank}
use blindfold.Policy.Types.{
  Preset, Operation, disclose, restore, Request, DecisionAction, DenyRule, AllowRule, Decision,
  Policy,
}
use blindfold.Policy.Rules.{matches, violates_invariant}
use blindfold.Policy.Rules.Validation.{
  IsTrusted, is_trusted_restore_destination_iff, IsAcceptable, validate_rules_iff,
}
use blindfold.Policy.Presets.Order.{
  strictness, preset_action-hides_secrets, preset_action-no_restore,
}
use blindfold.Policy.Engine.{new, granted, evaluate_at}
use blindfold.Policy.Engine.Precedence.{
  Decides, Allows, invariant, invalid, denied, allowed, by_default, evaluate_at-Decides,
}

restore-IsTrusted :
    (r : Request) → r.operation ≡ restore → violates_invariant r ≡ false → IsTrusted r.destination
unfolding violates_invariant
restore-IsTrusted r o v =
    (is_trusted_restore_destination_iff r.destination).0 (ground (arith, o, v))

granted-restore : (o : Operation) → granted o ≡ DecisionAction.restore → o ≡ restore
granted-restore disclose e = ground arith
granted-restore restore e = refl

module _ (p : Policy) (r : Request) (now : ℕ) where
  -- The active allow rule that a decision cites, with its reason.
  pub record Cites (d : Decision) (rule : AllowRule) : Type 0 where
    pub allows : Allows p r now rule
    pub rule_id : d.explanation.rule_id ≡ some rule.id
    pub allow_reason : d.explanation.allow_reason ≡ some rule.reason

  restore-Decides :
      (d : Decision)
      → Decides p r now d
      → d.action ≡ DecisionAction.restore
      → (r.operation ≡ restore) × IsTrusted r.destination × ((rule : AllowRule) × Cites d rule)
  restore-Decides d (invariant t) e = ground arith
  restore-Decides d (invalid f w) e = ground arith
  restore-Decides d (denied rule f w x) e = ground arith
  restore-Decides d (allowed rule f w x y) e =
      let o = granted-restore r.operation e in
      (
        o,
        restore-IsTrusted r o f,
        (rule, record { allows = y; rule_id = refl; allow_reason = refl }),
      )
  restore-Decides d (by_default f w x y) e = absurd (preset_action-no_restore p.preset r e)

  -- Under any policy, a decision restores an original value only for a request to restore, only to
  -- a child process or the trusted local destination, and only by a listed allow rule that matches,
  -- is active and has the least identifier of those; its identifier and reason are in the explanation.
  pub evaluate_at-restore :
      (evaluate_at p r now).action ≡ DecisionAction.restore
      → (r.operation ≡ restore)
        × IsTrusted r.destination
        × ((rule : AllowRule) × Cites (evaluate_at p r now) rule)
  evaluate_at-restore = restore-Decides (evaluate_at p r now) (evaluate_at-Decides p r now)

  plain-Decides :
      (d : Decision)
      → Decides p r now d
      → sensitivity_rank Sensitivity.secret ≤ sensitivity_rank r.sensitivity
      → strictness d.action < strictness DecisionAction.redact
      → (rule : AllowRule) × Cites d rule
  plain-Decides d (invariant t) s h = absurd (omega arith)
  plain-Decides d (invalid f w) s h = absurd (omega arith)
  plain-Decides d (denied rule f w x) s h = absurd (omega arith)
  plain-Decides d (allowed rule f w x y) s h =
      (rule, record { allows = y; rule_id = refl; allow_reason = refl })
  plain-Decides d (by_default f w x y) s h =
      absurd (omega (arith, preset_action-hides_secrets p.preset r s))

  -- Under any policy, a value of sensitivity secret or above is neither redacted nor blocked only if
  -- a listed allow rule matches, is active and has the least identifier of those; the explanation
  -- cites its identifier and reason.
  pub evaluate_at-hides_secrets :
      sensitivity_rank Sensitivity.secret ≤ sensitivity_rank r.sensitivity
      → strictness (evaluate_at p r now).action < strictness DecisionAction.redact
      → (rule : AllowRule) × Cites (evaluate_at p r now) rule
  evaluate_at-hides_secrets = plain-Decides (evaluate_at p r now) (evaluate_at-Decides p r now)

  denied-block :
      (d : Decision) (rule : DenyRule)
      → Memᴰ rule p.deny_rules
      → matches rule.scope r ≡ true
      → Decides p r now d
      → d.action ≡ DecisionAction.block
  denied-block d rule m t (invariant v) = refl
  denied-block d rule m t (invalid f e) = refl
  denied-block d rule m t (denied other f e x) = refl
  denied-block d rule m t (allowed other f e x y) = absurd (x rule m t)
  denied-block d rule m t (by_default f e x y) = absurd (x rule m t)

  -- A request that a listed deny rule matches is blocked, whatever the allow rules and the preset.
  pub evaluate_at-denied :
      (rule : DenyRule)
      → Memᴰ rule p.deny_rules
      → matches rule.scope r ≡ true
      → (evaluate_at p r now).action ≡ DecisionAction.block
  evaluate_at-denied rule m t =
      denied-block (evaluate_at p r now) rule m t (evaluate_at-Decides p r now)

  invalid-block :
      (d : Decision)
      → p.validation_error ≢ none
      → Decides p r now d
      → d.action ≡ DecisionAction.block
  invalid-block d h (invariant v) = refl
  invalid-block d h (invalid f e) = refl
  invalid-block d h (denied other f e x) = refl
  invalid-block d h (allowed other f e x y) = absurd (h e)
  invalid-block d h (by_default f e x y) = absurd (h e)

module _ (preset : Preset) (deny : List DenyRule) (allow : List AllowRule) (r : Request)
    (now : ℕ) where
  new-refuses : (IsAcceptable deny allow → ⊥) → (new preset deny allow).validation_error ≢ none
  unfolding new
  new-refuses h e = h ((validate_rules_iff deny allow).0 e)

  -- A policy made from rules that are not acceptable blocks every request.
  pub new-fail_closed :
      (IsAcceptable deny allow → ⊥)
      → (evaluate_at (new preset deny allow) r now).action ≡ DecisionAction.block
  new-fail_closed h =
      invalid-block (new preset deny allow) r now (evaluate_at (new preset deny allow) r now)
        (new-refuses h) (evaluate_at-Decides (new preset deny allow) r now)
