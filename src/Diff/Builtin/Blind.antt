-- ===== src/Diff/Builtin/Blind.antt =====
-- The built-in detector does not see what stands in a reference.
use mathlib.Core.Path.{subst₂}
use blindfold.Prelude.{
  inl, inr, ℕ, zero, suc, ◌+◌, Bool-cases, ◌≡◌, if◌then◌else◌, ◌≤◌, refl, sym, ap, ◌∙◌, none, [],
  ◌∷◌, ◌++◌, arith, length, length-append,
}
use blindfold.Core.SafeRef.{Text, SafeRefKind, encode, as_str}
use blindfold.Core.SafeRef.Laws.{IsId, encode-length}
use blindfold.Diff.Text.{is_whitespace}
use blindfold.Diff.Text.Laws.{Without}
use blindfold.Diff.Scan.{AddedLine}
use blindfold.Diff.Builtin.{detect_builtin, detect_masked}
use blindfold.Diff.Builtin.Assignments.{trim, is_empty}
use blindfold.Diff.Builtin.Encoding.{trim_start_matches, trim_end_matches, trim_matches}
use blindfold.Diff.Builtin.Masking.{mask_candidate, mask_from, mask_safe_refs}
use blindfold.Diff.Builtin.Masking.References.{
  mask_candidate-encode, mask_from-reference, trim_start-reference, trim_end-reference,
}

-- The texts are the same up to the identifiers of references, in front of each of which there is no
-- `{` since the reference before.
pub data Alike : Text → Text → Type 0 where
  same : (text : Text) → Alike text text
  reference :
      (front : Text) (kind : SafeRefKind) (id id' back back' : Text)
      → Without 123 front
      → IsId id
      → IsId id'
      → Alike back back'
      → Alike (front ++ (encode kind id ++ back)) (front ++ (encode kind id' ++ back'))

brace_front :
    (front : Text) → Without 123 front → Without 123 (trim_start_matches is_whitespace front)
unfolding trim_start_matches
brace_front [] h = tt
brace_front (c ∷ front) h = elim (Bool-cases (is_whitespace c)) [
  | inl t ↦ rw t (brace_front front h.1)
  | inr f ↦ rw f h
]

trim_start-Alike :
    (text text' : Text)
    → Alike text text'
    → Alike (trim_start_matches is_whitespace text) (trim_start_matches is_whitespace text')
trim_start-Alike text text' (same t) = same (trim_start_matches is_whitespace t)
trim_start-Alike text text' (reference front kind id id' back back' h v v' a) =
    subst₂ Alike (sym (trim_start-reference kind id v front back))
      (sym (trim_start-reference kind id' v' front back'))
      (reference (trim_start_matches is_whitespace front) kind id id' back back'
        (brace_front front h) v v' a)

trim_end-Alike :
    (text text' : Text)
    → Alike text text'
    → Alike (trim_end_matches is_whitespace text) (trim_end_matches is_whitespace text')
trim_end-Alike text text' (same t) = same (trim_end_matches is_whitespace t)
trim_end-Alike text text' (reference front kind id id' back back' h v v' a) =
    subst₂ Alike (sym (trim_end-reference kind id v front back))
      (sym (trim_end-reference kind id' v' front back'))
      (reference front kind id id' (trim_end_matches is_whitespace back)
        (trim_end_matches is_whitespace back') h v v' (trim_end-Alike back back' a))

reference_length :
    (front back : Text) (kind : SafeRefKind) (id : Text)
    → IsId id
    → length (front ++ (encode kind id ++ back))
      ≡ length front + length back + length (as_str kind) + 50
reference_length front back kind id v = omega (
  arith,
  length-append front (encode kind id ++ back),
  length-append (encode kind id) back,
  encode-length kind id v.size,
)

Alike-length : (text text' : Text) → Alike text text' → length text ≡ length text'
Alike-length text text' (same t) = refl
Alike-length text text' (reference front kind id id' back back' h v v' a) = omega (
  arith,
  reference_length front back kind id v,
  reference_length front back' kind id' v',
  Alike-length back back' a,
)

mask_from-Alike :
    (fuel : ℕ) (text text' : Text)
    → Alike text text'
    → length text ≤ fuel
    → mask_from fuel text ≡ mask_from fuel text'
mask_from-Alike fuel text text' (same t) k = refl
mask_from-Alike zero text text' (reference front kind id id' back back' h v v' a) k =
    absurd (omega (arith, reference_length front back kind id v))
mask_from-Alike (suc fuel) text text' (reference front kind id id' back back' h v v' a) k =
    mask_from-reference kind id v fuel front back h
    ∙ ap (λ t. front ++ (t ++ mask_from fuel back))
        (mask_candidate-encode kind id v ∙ sym (mask_candidate-encode kind id' v'))
    ∙ ap (λ t. front ++ (mask_candidate (encode kind id') ++ t))
        (mask_from-Alike fuel back back' a (omega (arith, reference_length front back kind id v)))
    ∙ sym (mask_from-reference kind id' v' fuel front back' h)

mask_safe_refs-Alike :
    (text text' : Text) → Alike text text' → mask_safe_refs text ≡ mask_safe_refs text'
unfolding mask_safe_refs
mask_safe_refs-Alike text text' a =
    mask_from-Alike (length text) text text' a (omega arith)
    ∙ ap (λ n. mask_from n text') (Alike-length text text' a)

trim-Alike : (text text' : Text) → Alike text text' → Alike (trim text) (trim text')
unfolding trim trim_matches
trim-Alike text text' a =
    trim_end-Alike (trim_start_matches is_whitespace text) (trim_start_matches is_whitespace text')
      (trim_start-Alike text text' a)

same_emptiness : (text text' : Text) → length text ≡ length text' → is_empty text ≡ is_empty text'
same_emptiness [] [] h = refl
same_emptiness [] (c ∷ text') h = absurd (omega (arith, h))
same_emptiness (c ∷ text) [] h = absurd (omega (arith, h))
same_emptiness (c ∷ text) (d ∷ text') h = refl

-- Where only the identifiers of references in a line are replaced by others, and there is no `{` in
-- front of a reference since the one before it, the built-in detector detects the same, in the same
-- column.
pub detect_builtin-blind :
    (line : AddedLine) (content : Text)
    → Alike line.content content
    → detect_builtin line ≡ detect_builtin (record line { content = content })
unfolding detect_builtin
detect_builtin-blind line content a =
    let b = trim-Alike line.content content a in
    let e =
      same_emptiness (trim line.content) (trim content)
        (Alike-length (trim line.content) (trim content) b) in
    let m = mask_safe_refs-Alike (trim line.content) (trim content) b in
    λ i. if e i then none else detect_masked line.path_risk (m i)
