-- ===== src/Diff/Builtin/Masking.antt =====
-- crates/blindfold-diff/src/scan.rs: references are blanked before a line is looked at.
pub mod Laws
pub mod Lengths
pub mod References
use blindfold.Prelude.{
  ℕ, zero, suc, ◌+◌, Bool, true, false, Option, none, some, [], ◌∷◌, ◌++◌, if◌then◌else◌, length,
  codes,
}
use blindfold.Core.SafeRef.{Text, Parsed, ok, err, parse}
use blindfold.Diff.Text.{split_once}
use blindfold.Diff.Builtin.Encoding.{utf8, byte_length}

unfoldable pub blank : ℕ → Text
blank zero = []
blank (suc n) = 32 ∷ blank n

abbrev is_ok : Parsed → Bool
is_ok (ok r) = true
is_ok (err e) = false

-- What a candidate becomes.
unfoldable pub mask_candidate : Text → Text
unfolding parse utf8 byte_length blank
mask_candidate candidate =
    if is_ok (parse (utf8 candidate)) then blank (byte_length candidate) else candidate

abbrev pub mask_prefix : Text
mask_prefix = codes "{{BLINDFOLD:v1:"

abbrev pub mask_inner : Text → (Text → Text) → Text → Option (Text × Text) → Text
mask_inner before mask content none = content
mask_inner before mask content (some (inner, behind)) =
    before ++ (mask_candidate (inner ++ codes "}}") ++ mask behind)

abbrev pub mask_found : (Text → Text) → Text → Option (Text × Text) → Text
mask_found mask content none = content
mask_found mask content (some (before, behind)) =
    mask_inner before mask content (split_once (mask_prefix ++ behind) (codes "}}"))

-- The loop, from the cursor on; a round moves the cursor by what it has found.
unfoldable pub mask_from : ℕ → Text → Text
unfolding mask_candidate split_once
mask_from zero content = content
mask_from (suc fuel) content = mask_found (mask_from fuel) content (split_once content mask_prefix)

unfoldable pub mask_safe_refs : Text → Text
unfolding mask_from
mask_safe_refs content = mask_from (length content) content
