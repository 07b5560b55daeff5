-- ===== src/Diff/Text.antt =====
-- The functions of Rust's `str` that the diff crate calls. Here a text is the list of its code
-- points, since white space is a property of characters.
pub mod Laws
pub mod Decimal
use blindfold.Prelude.{
  ℕ, zero, suc, ◌+◌, ◌-◌, ◌*◌, ◌^◌, Bool, true, false, not, ◌&&◌, ◌||◌, Option, none, some, List,
  [], ◌∷◌, ◌++◌, leb, ltb, ◌==◌, if◌then◌else◌,
}
use blindfold.Core.SafeRef.{Text, strip_prefix}

abbrev pub is_some {ℓ} : {A : Type ℓ} → Option A → Bool
is_some none = false
is_some (some a) = true

unfoldable pub starts_with : Text → Text → Bool
unfolding strip_prefix
starts_with text prefix = is_some (strip_prefix text prefix)

-- `strip_suffix` by one character
unfoldable pub strip_last : ℕ → Text → Option Text
strip_last c [] = none
strip_last c (d ∷ []) = if c == d then some [] else none
strip_last c (d ∷ e ∷ text) = elim (strip_last c (e ∷ text)) [
  | none ↦ none
  | some init ↦ some (d ∷ init)
]

abbrev pub after_char : ℕ → Option (Text × Text) → Option (Text × Text)
after_char c none = none
after_char c (some (before, behind)) = some (c ∷ before, behind)

abbrev pub split_here : ℕ → Option Text → Option (Text × Text) → Option (Text × Text)
split_here c (some behind) later = some ([], behind)
split_here c none later = after_char c later

-- `split_once` at the first occurrence of a pattern that is not empty
unfoldable pub split_once : Text → Text → Option (Text × Text)
unfolding strip_prefix
split_once [] pattern = none
split_once (c ∷ text) pattern =
    split_here c (strip_prefix (c ∷ text) pattern) (split_once text pattern)

-- `replace` of a pattern of two characters by one
unfoldable pub replace_pair : ℕ → ℕ → ℕ → Text → Text
replace_pair a b to [] = []
replace_pair a b to (c ∷ []) = c ∷ []
replace_pair a b to (c ∷ d ∷ text) =
    let here = to ∷ replace_pair a b to text in
    let later = c ∷ replace_pair a b to (d ∷ text) in if c == a && d == b then here else later

-- `char::is_whitespace`
unfoldable pub is_whitespace : ℕ → Bool
is_whitespace c =
    (leb 9 c && leb c 13)
    || ((c == 32 || (c == 0x85 || (c == 0xa0 || c == 0x1680)))
        || ((leb 0x2000 c && leb c 0x200a)
            || (c == 0x2028 || (c == 0x2029 || (c == 0x202f || (c == 0x205f || c == 0x3000))))))

-- `trim().is_empty()`
unfoldable pub is_blank : Text → Bool
unfolding is_whitespace
is_blank [] = true
is_blank (c ∷ text) = is_whitespace c && is_blank text

abbrev pub first_char : ℕ → List Text → List Text
first_char c [] = (c ∷ []) ∷ []
first_char c (word ∷ words) = (c ∷ word) ∷ words

abbrev pub is_filled : Text → Bool
is_filled [] = false
is_filled (c ∷ text) = true

-- The pieces between white-space characters, of which `split_whitespace` drops the empty ones.
pieces : Text → List Text
unfolding is_whitespace
pieces [] = [] ∷ []
pieces (c ∷ text) =
    let rest = pieces text in if is_whitespace c then [] ∷ rest else first_char c rest

drop_empty : List Text → List Text
drop_empty [] = []
drop_empty (word ∷ words) = if is_filled word then word ∷ drop_empty words else drop_empty words

unfoldable pub split_whitespace : Text → List Text
unfolding pieces drop_empty
split_whitespace text = drop_empty (pieces text)

abbrev pub at_newline : Text → Bool
at_newline [] = false
at_newline (c ∷ text) = c == 10

abbrev pub next_line : ℕ → Text → List Text → List Text
next_line c text rest =
    if c == 10 then [] ∷ rest else if c == 13 && at_newline text then rest else first_char c rest

-- `lines`: a line ends at a line feed, with the carriage return before it, or at the end.
unfoldable pub lines : Text → List Text
lines [] = []
lines (c ∷ text) = next_line c text (lines text)

abbrev pub usize_max : ℕ
usize_max = 2 ^ 64 - 1

abbrev pub is_digit : ℕ → Bool
is_digit c = leb 48 c && leb c 57

-- The digits behind `value`; `none` at another character, or past `usize::MAX`.
unfoldable pub parse_digits : ℕ → Text → Option ℕ
parse_digits value [] = some value
parse_digits value (c ∷ text) =
    let next = value * 10 + (c - 48) in
    let rest = parse_digits next text in if is_digit c && leb next usize_max then rest else none

abbrev pub parse_unsigned : Text → Option ℕ
parse_unsigned [] = none
parse_unsigned (c ∷ text) = parse_digits 0 (c ∷ text)

-- `parse::<usize>()`, which lets a plus sign stand in front
unfoldable pub parse_usize : Text → Option ℕ
unfolding parse_digits
parse_usize [] = none
parse_usize (c ∷ text) = if c == 43 then parse_unsigned text else parse_unsigned (c ∷ text)
