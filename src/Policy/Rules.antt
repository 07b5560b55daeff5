-- ===== src/Policy/Rules.antt =====
-- crates/blindfold-policy/src/lib.rs: which requests a rule matches, which rules are refused, and
-- the hard invariants.
pub mod Validation
use blindfold.Prelude.{
  ℕ, Bool, true, false, not, ◌&&◌, ◌||◌, Option, none, some, List, [], ◌∷◌, ◌++◌, map, ltb, leb,
  ◌==◌, if◌then◌else◌,
}
use blindfold.Core.Types.{
  SecretKind, Destination, Sensitivity, kind_rank, destination_rank, sensitivity_rank,
}
use blindfold.Policy.Types.{
  Operation, disclose, restore, SourceContext, Request, RuleId, RuleScope, DenyRule, AllowRule,
  PolicyError, operation_rank, source_rank,
}

-- `Option::is_none_or`
abbrev pub is_none_or {ℓ} : {A : Type ℓ} → Option A → (A → Bool) → Bool
is_none_or none p = true
is_none_or (some a) p = p a

unfoldable pub matches : RuleScope → Request → Bool
matches s r =
    operation_rank s.operation == operation_rank r.operation
    && (destination_rank s.destination == destination_rank r.destination
        && (is_none_or s.kind (λ k. kind_rank k == kind_rank r.kind)
            && (is_none_or s.sensitivity (λ v. sensitivity_rank v == sensitivity_rank r.sensitivity)
                && is_none_or s.source (λ c. source_rank c == source_rank r.source))))

unfoldable pub is_active : AllowRule → ℕ → Bool
is_active rule now = is_none_or rule.expires_at (λ expiry. ltb now expiry)

unfoldable pub is_known_destination : Destination → Bool
is_known_destination Destination.model_provider = true
is_known_destination Destination.agent = true
is_known_destination Destination.tool = true
is_known_destination Destination.child_process = true
is_known_destination Destination.file = true
is_known_destination Destination.log = true
is_known_destination Destination.audit = true
is_known_destination Destination.user = true
is_known_destination Destination.trusted_local = true

unfoldable pub is_trusted_restore_destination : Destination → Bool
is_trusted_restore_destination Destination.child_process = true
is_trusted_restore_destination Destination.trusted_local = true
is_trusted_restore_destination _ = false

unfoldable pub is_known_sensitivity : Sensitivity → Bool
is_known_sensitivity Sensitivity.public = true
is_known_sensitivity Sensitivity.internal = true
is_known_sensitivity Sensitivity.confidential = true
is_known_sensitivity Sensitivity.secret = true
is_known_sensitivity Sensitivity.restricted = true

unfoldable pub is_known_kind : SecretKind → Bool
is_known_kind SecretKind.api_key = true
is_known_kind SecretKind.token = true
is_known_kind SecretKind.password = true
is_known_kind SecretKind.private_key = true
is_known_kind SecretKind.certificate = true
is_known_kind SecretKind.credential_url = true
is_known_kind SecretKind.personally_identifiable_information = true
is_known_kind SecretKind.other = true

-- The destinations that `violates_invariant` protects from secrets.
abbrev pub is_exposed : Destination → Bool
is_exposed Destination.model_provider = true
is_exposed Destination.agent = true
is_exposed Destination.tool = true
is_exposed Destination.log = true
is_exposed Destination.audit = true
is_exposed _ = false

abbrev pub violates_for : Operation → Request → Bool
violates_for restore r = not (is_trusted_restore_destination r.destination)
violates_for disclose r =
    leb (sensitivity_rank Sensitivity.secret) (sensitivity_rank r.sensitivity)
    && is_exposed r.destination

unfoldable pub violates_invariant : Request → Bool
unfolding is_known_destination is_trusted_restore_destination is_known_sensitivity is_known_kind
violates_invariant r =
    if not (is_known_destination r.destination)
      || (source_rank r.source == source_rank SourceContext.unsupported
          || (not (is_known_sensitivity r.sensitivity) || not (is_known_kind r.kind)))
    then true
    else violates_for r.operation r

-- `Result<(), PolicyError>`: `none` is `Ok(())`. The first error is returned.
abbrev pub first_error : Option PolicyError → Option PolicyError → Option PolicyError
first_error none next = next
first_error (some e) next = some e

abbrev is_unsupported : Option SourceContext → Bool
is_unsupported none = false
is_unsupported (some c) = source_rank c == source_rank SourceContext.unsupported

unfoldable pub validate_scope : RuleScope → Option PolicyError
unfolding is_known_destination
validate_scope s =
    if not (is_known_destination s.destination)
    then some PolicyError.unsupported_destination
    else if is_unsupported s.source
    then some PolicyError.unsupported_source
    else none

-- `ids.insert(id)` fails
unfoldable pub contains : List RuleId → RuleId → Bool
contains [] id = false
contains (seen ∷ ids) id = seen == id || contains ids id

-- The first loop of `validate_rules`, with the identifiers seen so far.
unfoldable pub check_ids : List RuleId → List (RuleId × RuleScope) → Option PolicyError
unfolding contains validate_scope
check_ids seen [] = none
check_ids seen ((id, scope) ∷ rest) =
    if contains seen id
    then some PolicyError.duplicate_rule_id
    else first_error (validate_scope scope) (check_ids (id ∷ seen) rest)

abbrev is_none {ℓ} : {A : Type ℓ} → Option A → Bool
is_none none = true
is_none (some a) = false

unfoldable pub check_allow_rule : RuleScope → Option PolicyError
unfolding is_trusted_restore_destination
check_allow_rule s =
    if is_none s.kind && (is_none s.sensitivity && is_none s.source)
    then some PolicyError.overbroad_allow_rule
    else if operation_rank s.operation == operation_rank restore
        && not (is_trusted_restore_destination s.destination)
    then some PolicyError.untrusted_restore_destination
    else none

-- The second loop.
unfoldable pub check_allow : List AllowRule → Option PolicyError
unfolding check_allow_rule
check_allow [] = none
check_allow (rule ∷ rules) = first_error (check_allow_rule rule.scope) (check_allow rules)

abbrev pub scoped_deny : DenyRule → RuleId × RuleScope
scoped_deny rule = (rule.id, rule.scope)

abbrev pub scoped_allow : AllowRule → RuleId × RuleScope
scoped_allow rule = (rule.id, rule.scope)

unfoldable pub validate_rules : List DenyRule → List AllowRule → Option PolicyError
unfolding check_ids check_allow
validate_rules deny_rules allow_rules =
    first_error (check_ids [] (map scoped_deny deny_rules ++ map scoped_allow allow_rules))
      (check_allow allow_rules)
