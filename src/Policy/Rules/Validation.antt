-- ===== src/Policy/Rules/Validation.antt =====
-- Which sets of rules are accepted.
use mathlib.Core.List.Permᴰ
use blindfold.Prelude.{
  Permᴰ, map-perm, All-perm, AllPairs-perm, ◌≡◌, ◌≢◌, ◌↔◌, refl, sym, ◌⊎◌, true, false, Option,
  none, some, List, [], ◌∷◌, ◌++◌, map, arith, All, AllPairs, All-map, All-and,
}
use blindfold.Core.Types.{Destination}
use blindfold.Policy.Types.{
  restore, SourceContext, RuleId, RuleScope, DenyRule, AllowRule, PolicyError,
}
use blindfold.Policy.Rules.{
  is_known_destination, is_trusted_restore_destination, first_error, validate_scope, contains,
  check_ids, check_allow_rule, check_allow, scoped_deny, scoped_allow, validate_rules,
}

-- The scope of any rule.
abbrev pub IsSupported : RuleScope → Type 0
IsSupported s = s.source ≢ some SourceContext.unsupported

-- Where original values may be restored.
abbrev pub IsTrusted : Destination → Type 0
IsTrusted d = (d ≡ Destination.child_process) ⊎ (d ≡ Destination.trusted_local)

-- The scope of an allow rule.
pub record IsNarrow (s : RuleScope) : Type 0 where
  pub restricted : (s.kind ≢ none) ⊎ ((s.sensitivity ≢ none) ⊎ (s.source ≢ none))
  pub trusted : s.operation ≡ restore → IsTrusted s.destination

abbrev pub rules_of : List DenyRule → List AllowRule → List (RuleId × RuleScope)
rules_of deny allow = map scoped_deny deny ++ map scoped_allow allow

abbrev pub DifferentIds : RuleId × RuleScope → RuleId × RuleScope → Type 0
DifferentIds a b = a.0 ≢ b.0

pub record IsAcceptable (deny : List DenyRule) (allow : List AllowRule) : Type 0 where
  pub distinct : AllPairs DifferentIds (rules_of deny allow)
  pub supported : All (λ (a : RuleId × RuleScope). IsSupported a.1) (rules_of deny allow)
  pub narrow : All (λ (rule : AllowRule). IsNarrow rule.scope) allow

first_error-none : (a b : Option PolicyError) → first_error a b ≡ none → (a ≡ none) × (b ≡ none)
first_error-none none b h = (refl, h)
first_error-none (some e) b h = cc

first_error-both : (a b : Option PolicyError) → a ≡ none → b ≡ none → first_error a b ≡ none
first_error-both a b h k = rw (h, k)

known : (d : Destination) → is_known_destination d ≡ true
unfolding is_known_destination
known d = ground arith

validate_scope-none : (s : RuleScope) → validate_scope s ≡ none → IsSupported s
unfolding validate_scope
validate_scope-none s h e = absurd (ground (arith, known s.destination, h, e))

validate_scope_of_supported : (s : RuleScope) → IsSupported s → validate_scope s ≡ none
unfolding validate_scope
validate_scope_of_supported s h = ground (arith, known s.destination)

pub is_trusted_restore_destination_iff :
    (d : Destination) → (is_trusted_restore_destination d ≡ true) ↔ IsTrusted d
unfolding is_trusted_restore_destination
is_trusted_restore_destination_iff d = ground arith

check_allow_rule-none : (s : RuleScope) → check_allow_rule s ≡ none → IsNarrow s
unfolding check_allow_rule
check_allow_rule-none s h = record {
  restricted = ground arith;
  trusted = λ e. (is_trusted_restore_destination_iff s.destination).0 (ground (arith, e));
}

check_allow_rule_of_narrow : (s : RuleScope) → IsNarrow s → check_allow_rule s ≡ none
unfolding check_allow_rule
check_allow_rule_of_narrow s h =
    let trusted : s.operation ≡ restore → is_trusted_restore_destination s.destination ≡ true =
      (λ e. (is_trusted_restore_destination_iff s.destination).1 (h.trusted e)) in
    ground (arith, h.restricted, trusted)

contains-false :
    (seen : List RuleId) (id : RuleId) → contains seen id ≡ false → All (λ k. k ≢ id) seen
unfolding contains
contains-false [] id h = tt
contains-false (k ∷ seen) id h = (λ e. ground (arith, e), contains-false seen id (ground arith))

contains_of_fresh :
    (seen : List RuleId) (id : RuleId) → All (λ k. k ≢ id) seen → contains seen id ≡ false
unfolding contains
contains_of_fresh [] id h = refl
contains_of_fresh (k ∷ seen) id h = ground (arith, h.0, contains_of_fresh seen id h.1)

-- What the first loop requires of the rules that are left.
record IsChecked (seen : List RuleId) (rules : List (RuleId × RuleScope)) : Type 0 where
  fresh : All (λ (a : RuleId × RuleScope). All (λ k. k ≢ a.0) seen) rules
  distinct : AllPairs DifferentIds rules
  supported : All (λ (a : RuleId × RuleScope). IsSupported a.1) rules

check_ids_step :
    (seen : List RuleId) (id : RuleId) (s : RuleScope) (rest : List (RuleId × RuleScope))
    → check_ids seen ((id, s) ∷ rest) ≡ none
    → (contains seen id ≡ false) × (validate_scope s ≡ none) × (check_ids (id ∷ seen) rest ≡ none)
unfolding check_ids
check_ids_step seen id s rest h =
    ground (arith, h, first_error-none (validate_scope s) (check_ids (id ∷ seen) rest))

check_ids-none :
    (seen : List RuleId) (rules : List (RuleId × RuleScope))
    → check_ids seen rules ≡ none
    → IsChecked seen rules
check_ids-none seen [] h = record { fresh = tt; distinct = tt; supported = tt }
check_ids-none seen ((id, s) ∷ rest) h =
    let (f, v, later) = check_ids_step seen id s rest h in
    let c = check_ids-none (id ∷ seen) rest later in
    record {
      fresh = (contains-false seen id f, All-map _ _ (λ a k. k.1) rest c.fresh);
      distinct = (All-map _ _ (λ a k. k.0) rest c.fresh, c.distinct);
      supported = (validate_scope-none s v, c.supported);
    }

check_ids_cons :
    (seen : List RuleId) (id : RuleId) (s : RuleScope) (rest : List (RuleId × RuleScope))
    → contains seen id ≡ false
    → validate_scope s ≡ none
    → check_ids (id ∷ seen) rest ≡ none
    → check_ids seen ((id, s) ∷ rest) ≡ none
unfolding check_ids
check_ids_cons seen id s rest f v later = rw (f, v, later)

check_ids_of_checked :
    (seen : List RuleId) (rules : List (RuleId × RuleScope))
    → IsChecked seen rules
    → check_ids seen rules ≡ none
unfolding check_ids
check_ids_of_checked seen [] c = refl
check_ids_of_checked seen ((id, s) ∷ rest) c =
    check_ids_cons seen id s rest (contains_of_fresh seen id c.fresh.0)
      (validate_scope_of_supported s c.supported.0)
      (check_ids_of_checked (id ∷ seen) rest (record {
        fresh = All-and _ _ rest c.distinct.0 c.fresh.1;
        distinct = c.distinct.1;
        supported = c.supported.1;
      }))

check_allow-none :
    (rules : List AllowRule)
    → check_allow rules ≡ none
    → All (λ (rule : AllowRule). IsNarrow rule.scope) rules
unfolding check_allow
check_allow-none [] h = tt
check_allow-none (rule ∷ rules) h =
    let (f, later) = first_error-none (check_allow_rule rule.scope) (check_allow rules) h in
    (check_allow_rule-none rule.scope f, check_allow-none rules later)

check_allow_of_narrow :
    (rules : List AllowRule)
    → All (λ (rule : AllowRule). IsNarrow rule.scope) rules
    → check_allow rules ≡ none
unfolding check_allow
check_allow_of_narrow [] h = refl
check_allow_of_narrow (rule ∷ rules) h =
    first_error-both (check_allow_rule rule.scope) (check_allow rules)
      (check_allow_rule_of_narrow rule.scope h.0) (check_allow_of_narrow rules h.1)

validate_rules-none :
    (deny : List DenyRule) (allow : List AllowRule)
    → validate_rules deny allow ≡ none
    → IsAcceptable deny allow
unfolding validate_rules
validate_rules-none deny allow h =
    let (i, n) = first_error-none (check_ids [] (rules_of deny allow)) (check_allow allow) h in
    let c = check_ids-none [] (rules_of deny allow) i in
    record { distinct = c.distinct; supported = c.supported; narrow = check_allow-none allow n }

unseen :
    (rules : List (RuleId × RuleScope))
    → All (λ (a : RuleId × RuleScope). All (λ k. k ≢ a.0) []) rules
unseen [] = tt
unseen (a ∷ rules) = (tt, unseen rules)

validate_rules_of_acceptable :
    (deny : List DenyRule) (allow : List AllowRule)
    → IsAcceptable deny allow
    → validate_rules deny allow ≡ none
unfolding validate_rules
validate_rules_of_acceptable deny allow a =
    first_error-both (check_ids [] (rules_of deny allow)) (check_allow allow)
      (check_ids_of_checked [] (rules_of deny allow) (record {
        fresh = unseen (rules_of deny allow);
        distinct = a.distinct;
        supported = a.supported;
      }))
      (check_allow_of_narrow allow a.narrow)

-- `validate_rules` accepts the deny rules and the allow rules exactly when their identifiers are
-- all different, no rule names the unsupported source, every allow rule restricts the kind, the
-- sensitivity or the source, and every allow rule for restoration is for a trusted destination.
pub validate_rules_iff :
    (deny : List DenyRule) (allow : List AllowRule)
    → (validate_rules deny allow ≡ none) ↔ IsAcceptable deny allow
validate_rules_iff deny allow =
    (validate_rules-none deny allow, validate_rules_of_acceptable deny allow)

different_symm : (a b : RuleId × RuleScope) → DifferentIds a b → DifferentIds b a
different_symm a b h e = h (sym e)

rules_of-perm :
    {deny deny' : List DenyRule} {allow allow' : List AllowRule}
    → Permᴰ deny deny'
    → Permᴰ allow allow'
    → Permᴰ (rules_of deny allow) (rules_of deny' allow')
rules_of-perm {deny'} {allow} p q =
    Permᴰ.trans (Permᴰ.append_right (map scoped_allow allow) (map-perm scoped_deny p))
      (Permᴰ.append_left (map scoped_deny deny') (map-perm scoped_allow q))

-- Acceptance does not depend on the order of the rules.
pub IsAcceptable-perm :
    {deny deny' : List DenyRule} {allow allow' : List AllowRule}
    → Permᴰ deny deny'
    → Permᴰ allow allow'
    → IsAcceptable deny allow
    → IsAcceptable deny' allow'
IsAcceptable-perm p q a =
    let r = rules_of-perm p q in
    record {
      distinct = AllPairs-perm DifferentIds different_symm r a.distinct;
      supported = All-perm (λ (b : RuleId × RuleScope). IsSupported b.1) r a.supported;
      narrow = All-perm (λ (rule : AllowRule). IsNarrow rule.scope) q a.narrow;
    }
