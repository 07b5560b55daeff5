-- ===== src/Diff/Builtin/Encoding/Laws.antt =====
-- Lengths in bytes, occurrences of patterns, and what trimming leaves.
use blindfold.Prelude.{
  ℕ, ◌+◌, ◌≡◌, ◌≤◌, refl, ap, ◌∙◌, Bool, false, some, [], ◌∷◌, ◌++◌, arith, Bool-cases,
  Option-cases, inl, inr, length, length-append, map,
}
use blindfold.Core.SafeRef.{Text, strip_prefix}
use blindfold.Core.SafeRef.Pieces.{strip_prefix-some}
use blindfold.Diff.Text.{split_once}
use blindfold.Diff.Scan.Paths.{to_lower}
use blindfold.Diff.Builtin.Encoding.{
  utf8_char, utf8, byte_length, trim_start_matches, trim_end_matches, keep_before,
}

pub byte_length-append : (a b : Text) → byte_length (a ++ b) ≡ byte_length a + byte_length b
unfolding byte_length utf8
byte_length-append [] b = omega arith
byte_length-append (c ∷ a) b = omega (
  arith,
  byte_length-append a b,
  length-append (utf8_char c) (utf8 (a ++ b)),
  length-append (utf8_char c) (utf8 a),
)

utf8_char_filled : (c : ℕ) → 1 ≤ length (utf8_char c)
unfolding utf8_char
utf8_char_filled c = ground arith

pub byte_length-cons :
    (c : ℕ) (text : Text) → byte_length (c ∷ text) ≡ byte_length (c ∷ []) + byte_length text
byte_length-cons c text = byte_length-append (c ∷ []) text

pub byte_length-filled : (c : ℕ) (text : Text) → 1 ≤ byte_length (c ∷ text)
unfolding byte_length utf8
byte_length-filled c text =
    omega (arith, utf8_char_filled c, length-append (utf8_char c) (utf8 text))

pub split_once-some :
    (text pattern before behind : Text)
    → split_once text pattern ≡ some (before, behind)
    → text ≡ before ++ (pattern ++ behind)
unfolding split_once
split_once-some [] pattern before behind h = cc
split_once-some (c ∷ text) pattern before behind h =
    elim (Option-cases (strip_prefix (c ∷ text) pattern)) [
      | inr (rest, e) ↦ let k = strip_prefix-some pattern (c ∷ text) rest e in cc
      | inl n ↦ elim (Option-cases (split_once text pattern)) [
        | inl m ↦ cc
        | inr ((x, y), e) ↦ let k = split_once-some text pattern x y e in cc
      ]
    ]

utf8_char-to_lower : (c : ℕ) → length (utf8_char (to_lower c)) ≡ length (utf8_char c)
unfolding utf8_char to_lower
utf8_char-to_lower c = ground arith

pub byte_length-to_lower : (text : Text) → byte_length (map to_lower text) ≡ byte_length text
unfolding byte_length utf8
byte_length-to_lower [] = refl
byte_length-to_lower (c ∷ text) = omega (
  arith,
  byte_length-to_lower text,
  utf8_char-to_lower c,
  length-append (utf8_char (to_lower c)) (utf8 (map to_lower text)),
  length-append (utf8_char c) (utf8 text),
)

module _ (p : ℕ → Bool) (c : ℕ) (kept : p c ≡ false) where
  -- Trimming stops at a character that is kept.
  pub trim_start_matches-append :
      (front text : Text)
      → trim_start_matches p (front ++ (c ∷ text)) ≡ trim_start_matches p front ++ (c ∷ text)
  unfolding trim_start_matches
  trim_start_matches-append [] text = rw kept refl
  trim_start_matches-append (d ∷ front) text = elim (Bool-cases (p d)) [
    | inl t ↦ rw t (trim_start_matches-append front text)
    | inr f ↦ rw f refl
  ]

  pub trim_end_matches-append :
      (front text : Text)
      → trim_end_matches p (front ++ (c ∷ text)) ≡ front ++ (c ∷ trim_end_matches p text)
  unfolding trim_end_matches
  trim_end_matches-append [] text = kept_before (trim_end_matches p text)
    where
      kept_before : (rest : Text) → keep_before p c rest ≡ c ∷ rest
      kept_before [] = rw kept refl
      kept_before (d ∷ rest) = refl
  trim_end_matches-append (d ∷ front) text =
      ap (keep_before p d) (trim_end_matches-append front text) ∙ before front
    where
      before :
          (front : Text)
          → keep_before p d (front ++ (c ∷ trim_end_matches p text))
            ≡ d ∷ (front ++ (c ∷ trim_end_matches p text))
      before [] = refl
      before (e ∷ front) = refl
