-- ===== src/Policy/Engine/Independence.antt =====
-- What a decision does not depend on: the order of the rules; and how it changes with time.
use mathlib.Core.List.Permᴰ
use blindfold.Prelude.{
  ℕ, ◌≡◌, ◌≢◌, refl, ap, ◌∙◌, true, ◌&&◌, Option, none, some, List, Permᴰ, arith, ◌≤◌, inl, inr,
  Bool-cases, AllPairs-left, AllPairs-right, AllPairs-map_from, map,
}
use blindfold.Prelude.Selection.{filter-perm, AllPairs-filter, min_by_key-perm}
use blindfold.Policy.Types.{
  Preset, Operation, disclose, restore, Request, DenyRule, AllowRule, PolicyError, Policy,
}
use blindfold.Policy.Rules.{
  matches, is_active, violates_invariant, validate_rules, scoped_deny, scoped_allow,
}
use blindfold.Policy.Rules.Validation.{
  IsAcceptable, validate_rules_iff, IsAcceptable-perm, DifferentIds,
}
use blindfold.Policy.Presets.Order.{strictness}
use blindfold.Policy.Engine.Precedence.{AllowsNone, allow_match-none, allow_match-Allows}
use blindfold.Policy.Engine.{
  granted, new, deny_match, allow_match, by_allow, by_deny, by_validity, evaluate_at,
}

module _ (preset : Preset) {deny deny' : List DenyRule} {allow allow' : List AllowRule}
    (p : Permᴰ deny deny') (q : Permᴰ allow allow') (r : Request) (now : ℕ) where
  same_deny :
      IsAcceptable deny allow
      → deny_match (new preset deny allow) r ≡ deny_match (new preset deny' allow') r
  unfolding deny_match new
  same_deny a =
      min_by_key-perm (λ (x : DenyRule). x.id)
        (AllPairs-filter (λ x. matches x.scope r) (λ x y. x.id ≢ y.id) deny
          (AllPairs-map_from scoped_deny DifferentIds deny (
            AllPairs-left DifferentIds (map scoped_deny deny) (map scoped_allow allow) a.distinct)))
        (filter-perm (λ x. matches x.scope r) p)

  same_allow :
      IsAcceptable deny allow
      → allow_match (new preset deny allow) r now ≡ allow_match (new preset deny' allow') r now
  unfolding allow_match new
  same_allow a =
      min_by_key-perm (λ (x : AllowRule). x.id)
        (AllPairs-filter (λ x. matches x.scope r && is_active x now) (λ x y. x.id ≢ y.id) allow
          (AllPairs-map_from scoped_allow DifferentIds allow (
            AllPairs-right DifferentIds (map scoped_deny deny) (map scoped_allow allow)
              a.distinct)))
        (filter-perm (λ x. matches x.scope r && is_active x now) q)

  -- Decisions name only the preset of the policy.
  by_allow_same :
      (o : Option AllowRule)
      → by_allow (new preset deny allow) r o ≡ by_allow (new preset deny' allow') r o
  unfolding new
  by_allow_same none = refl
  by_allow_same (some rule) = refl

  by_deny_same :
      (o : Option DenyRule)
      → allow_match (new preset deny allow) r now ≡ allow_match (new preset deny' allow') r now
      → by_deny (new preset deny allow) r now o ≡ by_deny (new preset deny' allow') r now o
  unfolding new
  by_deny_same none e =
      ap (by_allow (new preset deny allow) r) e
      ∙ by_allow_same (allow_match (new preset deny' allow') r now)
  by_deny_same (some rule) e = refl

  accepted_same :
      IsAcceptable deny allow
      → by_validity (new preset deny allow) r now none
        ≡ by_validity (new preset deny' allow') r now none
  accepted_same a =
      ap (by_deny (new preset deny allow) r now) (same_deny a)
      ∙ by_deny_same (deny_match (new preset deny' allow') r) (same_allow a)

  refused_same :
      (w v : PolicyError)
      → by_validity (new preset deny allow) r now (some w)
        ≡ by_validity (new preset deny' allow') r now (some v)
  unfolding new
  refused_same w v = refl

  validity_same :
      (o o' : Option PolicyError)
      → validate_rules deny allow ≡ o
      → validate_rules deny' allow' ≡ o'
      → by_validity (new preset deny allow) r now o ≡ by_validity (new preset deny' allow') r now o'
  validity_same none none e f = accepted_same ((validate_rules_iff deny allow).0 e)
  validity_same none (some v) e f =
      let a = IsAcceptable-perm p q ((validate_rules_iff deny allow).0 e) in
      absurd (ground (arith, f, (validate_rules_iff deny' allow').1 a))
  validity_same (some w) none e f =
      let a =
        IsAcceptable-perm (Permᴰ.symm p) (Permᴰ.symm q) ((validate_rules_iff deny' allow').0 f) in
      absurd (ground (arith, e, (validate_rules_iff deny allow).1 a))
  validity_same (some w) (some v) e f = refused_same w v

  -- Two policies with the same preset and the same rules, listed in any order, make the same decision
  -- with the same explanation on every request at every time.
  pub evaluate_at-perm :
      evaluate_at (new preset deny allow) r now ≡ evaluate_at (new preset deny' allow') r now
  unfolding evaluate_at new
  evaluate_at-perm = elim (Bool-cases (violates_invariant r)) [
    | inl t ↦ rw (t, evaluate_at)
    | inr f ↦
        rw (f, evaluate_at)
          (validity_same (validate_rules deny allow) (validate_rules deny' allow') refl refl)
  ]

is_active_earlier :
    (rule : AllowRule) (now later : ℕ)
    → now ≤ later
    → is_active rule later ≡ true
    → is_active rule now ≡ true
unfolding is_active
is_active_earlier rule now later h e = ground arith

module _ (p : Policy) (r : Request) (now later : ℕ) (h : now ≤ later) where
  allow_match-earlier : allow_match p r now ≡ none → AllowsNone p r later
  allow_match-earlier e rule m a =
      allow_match-none p r now e rule m
        (record { applies = a.applies; active = is_active_earlier rule now later h a.active })

  granted-strictness : (o : Operation) → strictness (granted o) ≡ 0
  granted-strictness disclose = refl
  granted-strictness restore = refl

  by_allow_later :
      (o o' : Option AllowRule)
      → allow_match p r now ≡ o
      → allow_match p r later ≡ o'
      → strictness (by_allow p r o).action ≤ strictness (by_allow p r o').action
  by_allow_later none none e f = omega arith
  by_allow_later none (some rule) e f =
      let a = allow_match-Allows p r later rule f in
      absurd (allow_match-earlier e rule a.listed a.applied)
  by_allow_later (some rule) o' e f = omega (arith, granted-strictness r.operation)

  by_deny_later :
      (o : Option DenyRule)
      → strictness (by_deny p r now o).action ≤ strictness (by_deny p r later o).action
  by_deny_later none = by_allow_later (allow_match p r now) (allow_match p r later) refl refl
  by_deny_later (some rule) = omega arith

  by_validity_later :
      (o : Option PolicyError)
      → strictness (by_validity p r now o).action ≤ strictness (by_validity p r later o).action
  by_validity_later none = by_deny_later (deny_match p r)
  by_validity_later (some w) = omega arith

  -- The passing of time never loosens a decision: at a later instant the same policy decides the same
  -- request at least as strictly.
  pub evaluate_at-later :
      strictness (evaluate_at p r now).action ≤ strictness (evaluate_at p r later).action
  unfolding evaluate_at
  evaluate_at-later = elim (Bool-cases (violates_invariant r)) [
    | inl t ↦ rw (t, evaluate_at) (omega arith)
    | inr f ↦ rw (f, evaluate_at) (by_validity_later p.validation_error)
  ]
