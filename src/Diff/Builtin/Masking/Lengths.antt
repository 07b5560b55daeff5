-- ===== src/Diff/Builtin/Masking/Lengths.antt =====
-- Blanking references keeps the number of bytes.
use blindfold.Prelude.{
  ℕ, zero, suc, ◌+◌, ◌≡◌, refl, ap, ◌∙◌, some, ◌++◌, arith, length, Option-cases, inl, inr, codes,
}
use blindfold.Core.SafeRef.{Text}
use blindfold.Diff.Text.{split_once}
use blindfold.Diff.Builtin.Encoding.{utf8, byte_length}
use blindfold.Diff.Builtin.Encoding.Laws.{byte_length-append, split_once-some}
use blindfold.Diff.Builtin.Masking.{
  blank, mask_candidate, mask_inner, mask_found, mask_prefix, mask_from, mask_safe_refs,
}

blank_length : (n : ℕ) → byte_length (blank n) ≡ n
unfolding byte_length utf8 blank
blank_length zero = refl
blank_length (suc n) = ap suc (blank_length n)

mask_candidate-length :
    (candidate : Text) → byte_length (mask_candidate candidate) ≡ byte_length candidate
unfolding mask_candidate
mask_candidate-length candidate = ground (arith, blank_length (byte_length candidate))

pub split_once-length :
    (text pattern before behind : Text)
    → split_once text pattern ≡ some (before, behind)
    → byte_length text ≡ byte_length before + byte_length pattern + byte_length behind
split_once-length text pattern before behind h =
    ap byte_length (split_once-some text pattern before behind h)
    ∙ omega
        (arith, byte_length-append before (pattern ++ behind), byte_length-append pattern behind)

mask_from-length :
    (fuel : ℕ) (content : Text) → byte_length (mask_from fuel content) ≡ byte_length content
unfolding mask_from
mask_from-length zero content = refl
mask_from-length (suc fuel) content = elim (Option-cases (split_once content mask_prefix)) [
  | inl n ↦ ap (λ o. byte_length (mask_found (mask_from fuel) content o)) n
  | inr ((before, behind), e) ↦
      ap (λ o. byte_length (mask_found (mask_from fuel) content o)) e
      ∙ (elim (Option-cases (split_once (mask_prefix ++ behind) (codes "}}"))) [
        | inl n ↦ ap (λ o. byte_length (mask_inner before (mask_from fuel) content o)) n
        | inr ((inner, rest), f) ↦
            ap (λ o. byte_length (mask_inner before (mask_from fuel) content o)) f
            ∙ omega (
              arith,
              byte_length-append before
                  (mask_candidate (inner ++ codes "}}") ++ mask_from fuel rest),
              byte_length-append (mask_candidate (inner ++ codes "}}")) (mask_from fuel rest),
              mask_candidate-length (inner ++ codes "}}"),
              byte_length-append inner (codes "}}"),
              mask_from-length fuel rest,
              split_once-length content mask_prefix before behind e,
              split_once-length (mask_prefix ++ behind) (codes "}}") inner rest f,
              byte_length-append mask_prefix behind,
            )
      ])
]

pub mask_safe_refs-length :
    (content : Text) → byte_length (mask_safe_refs content) ≡ byte_length content
unfolding mask_safe_refs
mask_safe_refs-length content = mask_from-length (length content) content
