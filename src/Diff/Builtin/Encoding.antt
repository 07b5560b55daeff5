-- ===== src/Diff/Builtin/Encoding.antt =====
-- What crates/blindfold-diff/src/scan.rs asks of `str`: lengths and offsets are those of the UTF-8
-- bytes of a text.
pub mod Laws
use blindfold.Prelude.{
  ℕ, ◌+◌, ◌/◌, ◌%◌, Bool, true, false, Option, none, some, List, [], ◌∷◌, ◌++◌, ltb, ◌==◌, ◌||◌,
  if◌then◌else◌, length,
}
use blindfold.Core.SafeRef.{Text}
use blindfold.Diff.Text.{split_once}

-- A character below 2^21.
unfoldable pub utf8_char : ℕ → List ℕ
utf8_char c =
    if ltb c 0x80
    then c ∷ []
    else if ltb c 0x800
    then (0xc0 + c / 0x40) ∷ (0x80 + c % 0x40) ∷ []
    else if ltb c 0x10000
    then (0xe0 + c / 0x1000) ∷ (0x80 + c / 0x40 % 0x40) ∷ (0x80 + c % 0x40) ∷ []
    else (0xf0 + c / 0x40000)
      ∷ (0x80 + c / 0x1000 % 0x40)
      ∷ (0x80 + c / 0x40 % 0x40)
      ∷ (0x80 + c % 0x40)
      ∷ []

unfoldable pub utf8 : Text → List ℕ
unfolding utf8_char
utf8 [] = []
utf8 (c ∷ text) = utf8_char c ++ utf8 text

-- `len`
unfoldable pub byte_length : Text → ℕ
unfolding utf8
byte_length text = length (utf8 text)

abbrev pub offset : Option (Text × Text) → Option ℕ
offset none = none
offset (some (before, behind)) = some (byte_length before)

-- `find` of a pattern that is not empty
unfoldable pub find : Text → Text → Option ℕ
unfolding split_once byte_length
find text pattern = offset (split_once text pattern)

module _ (p : ℕ → Bool) where
  -- `trim_start_matches`
  unfoldable pub trim_start_matches : Text → Text
  trim_start_matches [] = []
  trim_start_matches (c ∷ text) =
      let rest = trim_start_matches text in if p c then rest else c ∷ text

  abbrev pub keep_before : ℕ → Text → Text
  keep_before c [] = if p c then [] else c ∷ []
  keep_before c (d ∷ rest) = c ∷ d ∷ rest

  -- `trim_end_matches`
  unfoldable pub trim_end_matches : Text → Text
  trim_end_matches [] = []
  trim_end_matches (c ∷ text) = keep_before c (trim_end_matches text)

  -- `trim_matches`
  unfoldable pub trim_matches : Text → Text
  unfolding trim_start_matches trim_end_matches
  trim_matches text = trim_end_matches (trim_start_matches text)

-- `is_ascii_whitespace`
abbrev pub is_ascii_whitespace : ℕ → Bool
is_ascii_whitespace c = c == 9 || (c == 10 || (c == 12 || (c == 13 || c == 32)))
