-- ===== src/Policy/Engine/Invariants.antt =====
-- crates/blindfold-policy/src/lib.rs: what is blocked under every policy.
use blindfold.Prelude.{
  &&_true, leb, ◌==◌, ℕ, zero, ◌≡◌, ◌≢◌, ◌↔◌, ◌⊎◌, inl, inr, refl, sym, ◌∙◌, true, false, none,
  some, [], ◌∷◌, Bool-cases, Memᴰ, arith, ==_refl,
}
use blindfold.Core.Types.{Destination, Sensitivity, sensitivity_rank, destination_rank, kind_rank}
use blindfold.Policy.Types.{
  chill, Operation, disclose, restore, SourceContext, Request, DecisionAction, required_operation,
  AllowRule, Decision, Policy, operation_rank, source_rank,
}
use blindfold.Policy.Rules.{
  is_exposed, is_known_destination, is_known_sensitivity, is_known_kind, violates_for, matches,
  is_active, violates_invariant, is_trusted_restore_destination,
}
use blindfold.Policy.Rules.Validation.{
  IsTrusted, is_trusted_restore_destination_iff, IsAcceptable, validate_rules_iff,
}
use blindfold.Policy.Engine.{new, granted, evaluate_at}
use blindfold.Policy.Engine.Precedence.{
  Decides, invariant, invalid, denied, allowed, by_default, evaluate_at-Decides,
}

-- What is outside of the trusted boundary, or is kept.
abbrev pub IsObserved : Destination → Type 0
IsObserved d =
    (d ≡ Destination.model_provider)
    ⊎ ((d ≡ Destination.agent)
        ⊎ ((d ≡ Destination.tool) ⊎ ((d ≡ Destination.log) ⊎ (d ≡ Destination.audit))))

-- The requests that no policy may grant.
pub data IsForbidden (r : Request) : Type 0 where
  from_unsupported : r.source ≡ SourceContext.unsupported → IsForbidden r
  secret_observed :
      r.operation ≡ disclose
      → (r.sensitivity ≡ Sensitivity.secret) ⊎ (r.sensitivity ≡ Sensitivity.restricted)
      → IsObserved r.destination
      → IsForbidden r
  restored_elsewhere : r.operation ≡ restore → (IsTrusted r.destination → ⊥) → IsForbidden r

known_request :
    (r : Request)
    → (is_known_destination r.destination ≡ true)
      × (is_known_sensitivity r.sensitivity ≡ true)
      × (is_known_kind r.kind ≡ true)
unfolding is_known_destination is_known_sensitivity is_known_kind
known_request r = (ground arith, ground arith, ground arith)

-- Behind the first test of `violates_invariant`, which only an unsupported source passes.
violates-supported :
    (r : Request)
    → (source_rank r.source == 8) ≡ false
    → violates_invariant r ≡ violates_for r.operation r
unfolding violates_invariant
violates-supported r f = let (d, s, k) = known_request r in rw (d, s, k, f) refl

violates-unsupported :
    (r : Request) → (source_rank r.source == 8) ≡ true → violates_invariant r ≡ true
unfolding violates_invariant
violates-unsupported r t = let (d, s, k) = known_request r in rw (d, s, k, t) refl

unsupported_source :
    (s : SourceContext) → ((source_rank s == 8) ≡ true) ↔ (s ≡ SourceContext.unsupported)
unsupported_source s = ground arith

is_exposed_iff : (d : Destination) → (is_exposed d ≡ true) ↔ IsObserved d
is_exposed_iff d = ground arith

secret_or_above :
    (s : Sensitivity)
    → (leb (sensitivity_rank Sensitivity.secret) (sensitivity_rank s) ≡ true)
      ↔ ((s ≡ Sensitivity.secret) ⊎ (s ≡ Sensitivity.restricted))
secret_or_above s = ground arith

violates_for-IsForbidden :
    (r : Request) (o : Operation) → r.operation ≡ o → violates_for o r ≡ true → IsForbidden r
violates_for-IsForbidden r disclose e h =
    let (s, d) = &&_true _ (is_exposed r.destination) h in
    secret_observed e ((secret_or_above r.sensitivity).0 s) ((is_exposed_iff r.destination).0 d)
violates_for-IsForbidden r restore e h =
    restored_elsewhere e (λ t. cc ((is_trusted_restore_destination_iff r.destination).1 t, h))

IsForbidden-violates : (r : Request) → IsForbidden r → violates_invariant r ≡ true
IsForbidden-violates r f = elim (Bool-cases (source_rank r.source == 8)) [
  | inl t ↦ violates-unsupported r t
  | inr g ↦ violates-supported r g ∙ go f g
]
  where
    go : IsForbidden r → (source_rank r.source == 8) ≡ false → violates_for r.operation r ≡ true
    go (from_unsupported e) g = absurd (cc ((unsupported_source r.source).1 e, g))
    go (secret_observed o s d) g =
        rw (o, (secret_or_above r.sensitivity).1 s, (is_exposed_iff r.destination).1 d) refl
    go (restored_elsewhere o n) g =
        elim (Bool-cases (is_trusted_restore_destination r.destination)) [
          | inl t ↦ absurd (n ((is_trusted_restore_destination_iff r.destination).0 t))
          | inr f ↦ rw (o, f) refl
        ]

violates-IsForbidden : (r : Request) → violates_invariant r ≡ true → IsForbidden r
violates-IsForbidden r h = elim (Bool-cases (source_rank r.source == 8)) [
  | inl t ↦ from_unsupported ((unsupported_source r.source).0 t)
  | inr g ↦ violates_for-IsForbidden r r.operation refl (sym (violates-supported r g) ∙ h)
]

-- An allow rule for just one request, and the policy that has it.
abbrev pub exact_rule : Request → AllowRule
exact_rule r = record {
  id = zero;
  scope = record {
    operation = r.operation;
    destination = r.destination;
    kind = some r.kind;
    sensitivity = some r.sensitivity;
    source = some r.source;
  };
  reason = required_operation;
  expires_at = none;
}

abbrev pub exact_policy : Request → Policy
exact_policy r = new chill [] (exact_rule r ∷ [])

exact-IsAcceptable : (r : Request) → (IsForbidden r → ⊥) → IsAcceptable [] (exact_rule r ∷ [])
exact-IsAcceptable r n = record {
  distinct = (tt, tt);
  supported = ((λ e. n (from_unsupported (cc e))), tt);
  narrow = (record { restricted = inl (λ e. cc); trusted = trusted }, tt);
}
  where
    trusted : r.operation ≡ restore → IsTrusted r.destination
    trusted o = elim (Bool-cases (is_trusted_restore_destination r.destination)) [
      | inl t ↦ (is_trusted_restore_destination_iff r.destination).0 t
      | inr f ↦ absurd (
          n (
            restored_elsewhere o
              (λ t. cc ((is_trusted_restore_destination_iff r.destination).1 t, f))))
    ]

exact-matches : (r : Request) → matches (exact_rule r).scope r ≡ true
unfolding matches
exact-matches r = rw (
  ==_refl (operation_rank r.operation),
  ==_refl (destination_rank r.destination),
  ==_refl (kind_rank r.kind),
  ==_refl (sensitivity_rank r.sensitivity),
  ==_refl (source_rank r.source),
)

exact_rule-active : (r : Request) (now : ℕ) → is_active (exact_rule r) now ≡ true
unfolding is_active
exact_rule-active r now = refl

granted-not-block : (o : Operation) → granted o ≢ DecisionAction.block
granted-not-block disclose e = ground arith
granted-not-block restore e = ground arith

exact_policy-grants :
    (r : Request) (now : ℕ) (d : Decision)
    → (IsForbidden r → ⊥)
    → Decides (exact_policy r) r now d
    → d.action ≢ DecisionAction.block
unfolding new
exact_policy-grants r now d n (invariant t) b = n (violates-IsForbidden r t)
exact_policy-grants r now d n (invalid f e) b =
    absurd (e ((validate_rules_iff [] (exact_rule r ∷ [])).1 (exact-IsAcceptable r n)))
exact_policy-grants r now d n (denied rule f e x) b = elim x.listed [ ]
exact_policy-grants r now d n (allowed rule f e x y) b = granted-not-block r.operation b
exact_policy-grants r now d n (by_default f e x y) b = absurd (
    y (exact_rule r) (Memᴰ.head refl)
      (record { applies = exact-matches r; active = exact_rule-active r now }))

forbidden-block :
    (p : Policy) (r : Request) (now : ℕ) (d : Decision)
    → violates_invariant r ≡ true
    → Decides p r now d
    → d.action ≡ DecisionAction.block
forbidden-block p r now d v (invariant t) = refl
forbidden-block p r now d v (invalid f e) = refl
forbidden-block p r now d v (denied rule f e x) = refl
forbidden-block p r now d v (allowed rule f e x y) = absurd (cc (v, f))
forbidden-block p r now d v (by_default f e x y) = absurd (cc (v, f))

-- The requests that every policy blocks at every time are these and no others: those from an
-- unsupported source, those to disclose a value of sensitivity secret or restricted to the model
-- provider, an agent, a tool, a log or the audit, and those to restore a value anywhere but in a child
-- process or the trusted local destination.
pub evaluate_at-protects :
    (r : Request)
    → ((p : Policy) (now : ℕ) → (evaluate_at p r now).action ≡ DecisionAction.block) ↔ IsForbidden r
evaluate_at-protects r = (
  (λ all. elim (Bool-cases (violates_invariant r)) [
    | inl t ↦ violates-IsForbidden r t
    | inr f ↦ absurd (
        exact_policy-grants r 0 (evaluate_at (exact_policy r) r 0)
          (λ g. cc (IsForbidden-violates r g, f)) (evaluate_at-Decides (exact_policy r) r 0)
          (all (exact_policy r) 0))
  ]),
  (λ g p now.
      forbidden-block p r now (evaluate_at p r now) (IsForbidden-violates r g)
        (evaluate_at-Decides p r now)),
)
