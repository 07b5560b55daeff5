-- ===== src/Proxy/Sanitize.antt =====
-- crates/blindfold-proxy/src/sanitize.rs: the walk over the textual leaves of a JSON value. A number
-- of `serde_json` is known by its text only. `Err(())` is `none`.
pub mod Clean
pub mod Pointers
pub mod Observed
use blindfold.Prelude.{
  ℕ, suc, ◌+◌, Bool, true, false, not, Option, none, some, List, [], ◌∷◌, ◌++◌, map, ◌==◌,
  if◌then◌else◌, ◌>>=◌, bytes_eq,
}
use blindfold.Prelude.Decimal.{decimal}
use blindfold.Core.SafeRef.{Text}
use blindfold.Trace.Record.{Category, sensitive}

-- A `Sanitizer`: `sanitize`, and `sanitize_traced` with the parts of its result.
pub record Sanitizer : Type 0 where
  pub sanitize : Text → Text
  pub sanitize_traced : Text → Text × List Category

-- A sanitizer that has only `sanitize`, with the trait's own `sanitize_traced`.
unfoldable pub of_sanitize : (Text → Text) → Sanitizer
unfolding bytes_eq
of_sanitize sanitize = record {
  sanitize = sanitize;
  sanitize_traced =
      λ text. (sanitize text, if bytes_eq (sanitize text) text then [] else sensitive ∷ []);
}

mutual
  pub data Value : Type 0 where
    null : Value
    bool : Bool → Value
    number : Text → Value
    string : Text → Value
    array : Items → Value
    object : Fields → Value

  pub data Items : Type 0 where
    no_items : Items
    item : Value → Items → Items

  pub data Fields : Type 0 where
    no_fields : Fields
    field : Text → Value → Fields → Fields

pub record Observation : Type 0 where
  pub category : Category
  pub pointer : Text

-- `replace` of one character by a text
unfoldable pub replace_char : ℕ → Text → Text → Text
replace_char c to [] = []
replace_char c to (d ∷ text) = (if d == c then to else d ∷ []) ++ replace_char c to text

-- `key.replace('~', "~0").replace('/', "~1")`
unfoldable pub escape_key : Text → Text
unfolding replace_char
escape_key key = replace_char 47 (126 ∷ 49 ∷ []) (replace_char 126 (126 ∷ 48 ∷ []) key)

-- The pointer of a member.
abbrev pub child : Text → Text → Text
child pointer token = pointer ++ (47 ∷ token)

abbrev pub observe : Text → List Category → List Observation
observe pointer categories = map (λ c. record { category = c; pointer = pointer }) categories

abbrev pub require : Bool → Option (Unit {0})
require true = some tt
require false = none

module _ (s : Sanitizer) where
  -- `sanitize_string`
  unfoldable pub sanitize_string : Text → Text → List Observation → Value × List Observation
  sanitize_string text pointer observations =
      let (replacement, categories) = s.sanitize_traced text in
      (string replacement, observations ++ observe pointer categories)

  -- `sanitizer.sanitize(text) == *text`
  abbrev pub is_unchanged : Text → Bool
  is_unchanged text = bytes_eq (s.sanitize text) text

  unfoldable mutual
    unfolding sanitize_string escape_key decimal

    pub sanitize_textual_leaves :
        Value → Text → List Observation → Option (Value × List Observation)
    sanitize_textual_leaves null pointer observations = some (null, observations)
    sanitize_textual_leaves (bool b) pointer observations = some (bool b, observations)
    sanitize_textual_leaves (number text) pointer observations = do
      _ ← require (is_unchanged text)
      some (number text, observations)
    sanitize_textual_leaves (string text) pointer observations =
        some (sanitize_string text pointer observations)
    sanitize_textual_leaves (array items) pointer observations = do
      (items', after) ← sanitize_items items 0 pointer observations
      some (array items', after)
    sanitize_textual_leaves (object fields) pointer observations = do
      (fields', after) ← sanitize_fields fields pointer observations
      some (object fields', after)

    pub sanitize_items : Items → ℕ → Text → List Observation → Option (Items × List Observation)
    sanitize_items no_items index pointer observations = some (no_items, observations)
    sanitize_items (item value items) index pointer observations = do
      (value', seen) ← sanitize_textual_leaves value (child pointer (decimal index)) observations
      (items', after) ← sanitize_items items (suc index) pointer seen
      some (item value' items', after)

    pub sanitize_fields : Fields → Text → List Observation → Option (Fields × List Observation)
    sanitize_fields no_fields pointer observations = some (no_fields, observations)
    sanitize_fields (field key value fields) pointer observations = do
      _ ← require (is_unchanged key)
      (value', seen) ← sanitize_textual_leaves value (child pointer (escape_key key)) observations
      (fields', after) ← sanitize_fields fields pointer seen
      some (field key value' fields', after)

  -- `sanitize_json`; the provider is not read.
  unfoldable pub sanitize_json : Value → Option (Value × List Observation)
  unfolding sanitize_textual_leaves
  sanitize_json value = sanitize_textual_leaves value [] []
