-- ===== src/Policy/Engine/Precedence.antt =====
-- The precedence of `evaluate_at` as a relation: which bases a decision can have, and when.
use blindfold.Prelude.{
  ℕ, ◌≡◌, ◌≢◌, refl, sym, subst, inl, inr, Bool, true, false, ◌&&◌, &&_true, Option, none, some,
  Memᴰ, Bool-cases, All-mem, ◌≤◌,
}
use blindfold.Prelude.Selection.{
  filter, filter-All, mem-filter_of_mem, min_by_key-IsLeast, min_by_key-none,
}
use blindfold.Policy.Types.{
  Request, DecisionAction, DenyRule, AllowRule, DecisionBasis, Decision, PolicyError, Policy,
}
use blindfold.Policy.Rules.{matches, is_active, violates_invariant}
use blindfold.Policy.Presets.{preset_action}
use blindfold.Policy.Engine.{
  decision, granted, deny_match, allow_match, by_allow, by_deny, by_validity, evaluate_at,
}

module _ (p : Policy) (r : Request) where
  -- The deny rule that decides: it matches, and no deny rule that matches has a smaller identifier.
  pub record Denies (rule : DenyRule) : Type 0 where
    pub listed : Memᴰ rule p.deny_rules
    pub applies : matches rule.scope r ≡ true
    pub least :
        (other : DenyRule)
        → Memᴰ other p.deny_rules
        → matches other.scope r ≡ true
        → rule.id ≤ other.id

  abbrev pub DeniesNone : Type 0
  DeniesNone = (other : DenyRule) → Memᴰ other p.deny_rules → matches other.scope r ≢ true

  -- An allow rule applies while it matches and has not expired.
  pub record Applies (now : ℕ) (rule : AllowRule) : Type 0 where
    pub applies : matches rule.scope r ≡ true
    pub active : is_active rule now ≡ true

  pub record Allows (now : ℕ) (rule : AllowRule) : Type 0 where
    pub listed : Memᴰ rule p.allow_rules
    pub applied : Applies now rule
    pub least :
        (other : AllowRule) → Memᴰ other p.allow_rules → Applies now other → rule.id ≤ other.id

  abbrev pub AllowsNone : ℕ → Type 0
  AllowsNone now = (other : AllowRule) → Memᴰ other p.allow_rules → Applies now other → ⊥

  -- Each stage of the precedence, with what holds of the stages before it.
  pub data Decides (now : ℕ) : Decision → Type 0 where
    invariant :
        violates_invariant r ≡ true
        → Decides now (decision p r DecisionAction.block DecisionBasis.invariant none)
    invalid :
        violates_invariant r ≡ false
        → p.validation_error ≢ none
        → Decides now (decision p r DecisionAction.block DecisionBasis.invalid_policy none)
    denied :
        (rule : DenyRule)
        → violates_invariant r ≡ false
        → p.validation_error ≡ none
        → Denies rule
        → Decides now
            (decision p r DecisionAction.block DecisionBasis.explicit_deny (some (rule.id, none)))
    allowed :
        (rule : AllowRule)
        → violates_invariant r ≡ false
        → p.validation_error ≡ none
        → DeniesNone
        → Allows now rule
        → Decides now (
            decision p r
              (granted r.operation)
              DecisionBasis.explicit_allow
              (some (rule.id, some rule.reason)))
    by_default :
        violates_invariant r ≡ false
        → p.validation_error ≡ none
        → DeniesNone
        → AllowsNone now
        → Decides now (decision p r (preset_action p.preset r) DecisionBasis.preset none)

  deny_match-Denies : (rule : DenyRule) → deny_match p r ≡ some rule → Denies rule
  unfolding deny_match
  deny_match-Denies rule e =
      let keep = λ (x : DenyRule). matches x.scope r in
      let i = min_by_key-IsLeast (λ x. x.id) (filter keep p.deny_rules) rule e in
      let f = All-mem _ i.listed (filter-All keep p.deny_rules) in
      record {
        listed = f.0;
        applies = f.1;
        least = λ other m t. All-mem _ (mem-filter_of_mem keep p.deny_rules m t) i.least;
      }

  deny_match-none : deny_match p r ≡ none → DeniesNone
  unfolding deny_match
  deny_match-none e other m t =
      let keep = λ (x : DenyRule). matches x.scope r in
      let k = min_by_key-none (λ (x : DenyRule). x.id) (filter keep p.deny_rules) e in
      elim (subst (Memᴰ other) k (mem-filter_of_mem keep p.deny_rules m t)) [ ]

  abbrev keeps : ℕ → AllowRule → Bool
  keeps now x = matches x.scope r && is_active x now

  keeps-Applies : (now : ℕ) (x : AllowRule) → keeps now x ≡ true → Applies now x
  keeps-Applies now x t =
      let (a, b) = &&_true (matches x.scope r) (is_active x now) t in
      record { applies = a; active = b }

  keeps_of_applied : (now : ℕ) (x : AllowRule) → Applies now x → keeps now x ≡ true
  keeps_of_applied now x a = rw (a.applies, a.active)

  pub allow_match-Allows :
      (now : ℕ) (rule : AllowRule) → allow_match p r now ≡ some rule → Allows now rule
  unfolding allow_match
  allow_match-Allows now rule e =
      let i = min_by_key-IsLeast (λ x. x.id) (filter (keeps now) p.allow_rules) rule e in
      let f = All-mem _ i.listed (filter-All (keeps now) p.allow_rules) in
      record {
        listed = f.0;
        applied = keeps-Applies now rule f.1;
        least = λ other m a.
            All-mem _ (mem-filter_of_mem (keeps now) p.allow_rules m (keeps_of_applied now other a))
              i.least;
      }

  pub allow_match-none : (now : ℕ) → allow_match p r now ≡ none → AllowsNone now
  unfolding allow_match
  allow_match-none now e other m a =
      let k = min_by_key-none (λ (x : AllowRule). x.id) (filter (keeps now) p.allow_rules) e in
      elim (subst (Memᴰ other) k
        (mem-filter_of_mem (keeps now) p.allow_rules m (keeps_of_applied now other a))) [ ]

  by_allow-Decides :
      (now : ℕ) (o : Option AllowRule)
      → allow_match p r now ≡ o
      → violates_invariant r ≡ false
      → p.validation_error ≡ none
      → DeniesNone
      → Decides now (by_allow p r o)
  by_allow-Decides now none e v w d = by_default v w d (allow_match-none now e)
  by_allow-Decides now (some rule) e v w d = allowed rule v w d (allow_match-Allows now rule e)

  by_deny-Decides :
      (now : ℕ) (o : Option DenyRule)
      → deny_match p r ≡ o
      → violates_invariant r ≡ false
      → p.validation_error ≡ none
      → Decides now (by_deny p r now o)
  by_deny-Decides now none e v w =
      by_allow-Decides now (allow_match p r now) refl v w (deny_match-none e)
  by_deny-Decides now (some rule) e v w = denied rule v w (deny_match-Denies rule e)

  by_validity-Decides :
      (now : ℕ) (o : Option PolicyError)
      → p.validation_error ≡ o
      → violates_invariant r ≡ false
      → Decides now (by_validity p r now o)
  by_validity-Decides now none e v = by_deny-Decides now (deny_match p r) refl v e
  by_validity-Decides now (some w) e v = invalid v (λ n. cc)

  violating :
      (now : ℕ)
      → violates_invariant r ≡ true
      → evaluate_at p r now ≡ decision p r DecisionAction.block DecisionBasis.invariant none
  unfolding evaluate_at
  violating now t = rw (t, evaluate_at)

  lawful :
      (now : ℕ)
      → violates_invariant r ≡ false
      → evaluate_at p r now ≡ by_validity p r now p.validation_error
  unfolding evaluate_at
  lawful now f = rw (f, evaluate_at)

  -- Every decision of `evaluate_at` is the one that the documented precedence prescribes: a hard
  -- invariant, an invalid policy, the matching deny rule with the least identifier, the matching
  -- active allow rule with the least identifier, and only then the preset, each with the earlier
  -- stages excluded.
  pub evaluate_at-Decides : (now : ℕ) → Decides now (evaluate_at p r now)
  evaluate_at-Decides now = elim (Bool-cases (violates_invariant r)) [
    | inl t ↦ subst (Decides now) (sym (violating now t)) (invariant t)
    | inr f ↦
        subst (Decides now) (sym (lawful now f)) (by_validity-Decides now p.validation_error refl f)
  ]
