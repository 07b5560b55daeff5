-- ===== src/Diff/Builtin/Masking/Laws.antt =====
-- The loop that blanks references ends: any fuel from the length of the text on gives the same.
use blindfold.Prelude.{
  Option, ℕ, zero, suc, ◌+◌, ◌≡◌, ◌≤◌, ◌<◌, refl, sym, ap, ◌∙◌, none, some, [], ◌∷◌, ◌++◌, arith,
  length, length-append, codes,
}
use blindfold.Core.SafeRef.{Text}
use blindfold.Diff.Text.{split_once}
use blindfold.Diff.Builtin.Encoding.Laws.{split_once-some}
use blindfold.Diff.Builtin.Masking.{
  mask_candidate, mask_prefix, mask_inner, mask_found, mask_from, mask_safe_refs,
}

split_once-size :
    (text pattern before behind : Text)
    → split_once text pattern ≡ some (before, behind)
    → length text ≡ length before + length pattern + length behind
split_once-size text pattern before behind h =
    ap length (split_once-some text pattern before behind h)
    ∙ omega (arith, length-append before (pattern ++ behind), length-append pattern behind)

mask_from-nil : (fuel : ℕ) → mask_from fuel [] ≡ []
unfolding mask_from split_once
mask_from-nil zero = refl
mask_from-nil (suc fuel) = refl

-- A round asks the next one for a shorter text only.
module _ (f g : Text → Text) (text : Text)
    (agree : (rest : Text) → length rest < length text → f rest ≡ g rest) where
  mask_inner-agree :
      (before behind : Text) (o : Option (Text × Text))
      → split_once (mask_prefix ++ behind) (codes "}}") ≡ o
      → length text ≡ length before + 15 + length behind
      → mask_inner before f text o ≡ mask_inner before g text o
  mask_inner-agree before behind none e size = refl
  mask_inner-agree before behind (some (inner, rest)) e size =
      let found = split_once-size (mask_prefix ++ behind) (codes "}}") inner rest e in
      ap (λ t. before ++ (mask_candidate (inner ++ codes "}}") ++ t))
        (agree rest (omega (arith, found, size, length-append mask_prefix behind)))

  mask_found-agree :
      (o : Option (Text × Text))
      → split_once text mask_prefix ≡ o
      → mask_found f text o ≡ mask_found g text o
  mask_found-agree none e = refl
  mask_found-agree (some (before, behind)) e =
      mask_inner-agree before behind (split_once (mask_prefix ++ behind) (codes "}}")) refl
        (split_once-size text mask_prefix before behind e)

mask_from_enough :
    (fuel fuel' : ℕ) (content : Text)
    → length content ≤ fuel
    → length content ≤ fuel'
    → mask_from fuel content ≡ mask_from fuel' content
unfolding mask_from
mask_from_enough fuel fuel' [] k k' = mask_from-nil fuel ∙ sym (mask_from-nil fuel')
mask_from_enough zero fuel' (c ∷ content) k k' = absurd (omega (arith, k))
mask_from_enough (suc fuel) zero (c ∷ content) k k' = absurd (omega (arith, k'))
mask_from_enough (suc fuel) (suc fuel') (c ∷ content) k k' =
    mask_found-agree (mask_from fuel) (mask_from fuel') (c ∷ content)
      (λ rest h. mask_from_enough fuel fuel' rest (omega (arith, h, k)) (omega (arith, h, k')))
      (split_once (c ∷ content) mask_prefix) refl

-- The fuel that the masking takes is enough: more gives the same.
pub mask_safe_refs_fuel :
    (content : Text) (fuel : ℕ)
    → length content ≤ fuel
    → mask_from fuel content ≡ mask_safe_refs content
unfolding mask_safe_refs
mask_safe_refs_fuel content fuel k = mask_from_enough fuel (length content) content k (omega arith)
