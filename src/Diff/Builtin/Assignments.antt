-- ===== src/Diff/Builtin/Assignments.antt =====
-- crates/blindfold-diff/src/scan.rs: assignments of credentials.
use blindfold.Prelude.{
  ℕ, ◌+◌, Bool, true, false, not, ◌&&◌, ◌||◌, Option, none, some, List, [], ◌∷◌, map, ◌==◌,
  if◌then◌else◌, codes, bytes_eq,
}
use blindfold.Prelude.Selection.{filter}
use blindfold.Core.SafeRef.{Text}
use blindfold.Diff.Text.{starts_with, split_once, is_whitespace}
use blindfold.Diff.Scan.Paths.{contains}
use blindfold.Diff.Builtin.Encoding.{
  byte_length, trim_end_matches, trim_matches, is_ascii_whitespace,
}
use blindfold.Diff.Builtin.Tokens.{to_ascii_lowercase, is_alphanumeric}

-- `trim`
unfoldable pub trim : Text → Text
unfolding is_whitespace trim_matches
trim text = trim_matches is_whitespace text

abbrev pub is_around_name : ℕ → Bool
is_around_name c =
    is_ascii_whitespace c
    || (c == 34 || (c == 39 || (c == 123 || (c == 44 || (c == 45 || c == 95)))))

abbrev pub contains_any : Text → List Text → Bool
contains_any text [] = false
contains_any text (pattern ∷ patterns) = contains text pattern || contains_any text patterns

unfoldable pub is_sensitive_name : Text → Bool
unfolding contains
is_sensitive_name name = contains_any name (
    map codes (
      "api_key" ∷ "apikey" ∷ "access_key" ∷ "secret" ∷ "token" ∷ "password" ∷ "passwd"
      ∷ "private_key" ∷ "client_secret" ∷ "auth" ∷ []))

unfoldable pub looks_like_runtime_reference : Text → Bool
unfolding starts_with contains
looks_like_runtime_reference value =
    starts_with value (codes "${")
    || (starts_with value (codes "env.")
        || (starts_with value (codes "process.env")
            || (starts_with value (codes "os.environ")
                || (starts_with value (codes "std::env") || contains value (codes "secret_ref")))))

abbrev pub is_empty : Text → Bool
is_empty [] = true
is_empty (c ∷ text) = false

abbrev pub name_of : Text → Text
name_of before = to_ascii_lowercase (trim_matches is_around_name before)

unfoldable pub value_of : Text → Text
unfolding trim trim_end_matches trim_matches
value_of behind =
    trim_matches (λ c. c == 34 || c == 39)
      (trim_end_matches (λ c. c == 44 || c == 59) (trim behind))

abbrev pub assignment : Option (Text × Text) → Option (ℕ × Text)
assignment none = none
assignment (some (before, behind)) =
    let value = value_of behind in
    if not (is_sensitive_name (name_of before))
    then none
    else if is_empty value || looks_like_runtime_reference value
    then none
    else some (byte_length before + 2, value)

abbrev pub or_split : Option (Text × Text) → Option (Text × Text) → Option (Text × Text)
or_split none other = other
or_split (some found) other = some found

unfoldable pub credential_assignment : Text → Option (ℕ × Text)
unfolding split_once trim_matches is_sensitive_name value_of looks_like_runtime_reference
    byte_length
credential_assignment content =
    assignment (or_split (split_once content (codes "=")) (split_once content (codes ":")))

abbrev pub is_any : Text → List Text → Bool
is_any text [] = false
is_any text (marker ∷ markers) = bytes_eq text marker || is_any text markers

abbrev pub is_filler : Text → Bool
is_filler [] = true
is_filler (c ∷ text) = (c == 120 || c == 48) && is_filler text

unfoldable pub is_placeholder : Text → Bool
unfolding filter bytes_eq
is_placeholder value =
    let normalized = to_ascii_lowercase (filter is_alphanumeric value) in
    is_empty normalized
    || (is_any normalized (
          map codes (
            "example" ∷ "examplekey" ∷ "fakeexamplekey" ∷ "placeholder" ∷ "placeholdervalue"
            ∷ "dummy" ∷ "dummyvalue" ∷ "fake" ∷ "sample" ∷ "changeme" ∷ "notasecret" ∷ "redacted"
            ∷ "yourkeyhere" ∷ "testonly" ∷ []))
        || is_filler normalized)
