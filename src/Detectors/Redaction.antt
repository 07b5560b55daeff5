-- ===== src/Detectors/Redaction.antt =====
-- crates/blindfold-detectors/src/redaction.rs: text is a list of UTF-8 bytes. The keyed hash, the
-- source of randomness and the dotenv catalog, whose parser is left out, are arguments.
pub mod Weave
pub mod Laws
use Prim.Native.String.{String}
use blindfold.Prelude.{
  ℕ, zero, suc, ◌+◌, ◌-◌, ◌/◌, ◌%◌, Bool, true, false, ◌&&◌, ◌||◌, not, Option, none, some, List,
  [], ◌∷◌, ◌++◌, ltb, leb, ◌==◌, if◌then◌else◌, length, take, drop, codes, bytes_eq, ◌>>=◌,
}
use blindfold.Detectors.Finding.{Finding, SecretKind, label}

abbrev pub Text : Type 0
Text = List ℕ

pub data RedactionMode : Type 0 where
  env_ref schema_only placeholder surrogate block : RedactionMode

pub data RedactionError : Type 0 where
  blocked invalid_span randomness_unavailable : RedactionError

pub record RedactionOutput : Type 0 where
  pub text : Text
  pub findings : List Finding

pub data Redaction : Type 0 where
  ok : RedactionOutput → Redaction
  err : RedactionError → Redaction

-- A byte of the form 10xxxxxx continues a character.
abbrev is_continuation : ℕ → Bool
is_continuation b = leb 128 b && ltb b 192

starts_char : Text → Bool
starts_char [] = true
starts_char (b ∷ rest) = not (is_continuation b)

-- `str::is_char_boundary`
unfoldable pub is_char_boundary : Text → ℕ → Bool
unfolding starts_char
is_char_boundary input i = leb i (length input) && (i == 0 || starts_char (drop i input))

-- `str::get(start..end)`
unfoldable pub get : Text → ℕ → ℕ → Option Text
unfolding is_char_boundary
get input start end =
    if leb start end && is_char_boundary input start && is_char_boundary input end
    then some (take (end - start) (drop start input))
    else none

abbrev hex_digit : ℕ → ℕ
hex_digit d = if ltb d 10 then 48 + d else 87 + d

unfoldable pub push_hex : Text → Text
push_hex [] = []
push_hex (b ∷ bytes) = hex_digit (b / 16) ∷ hex_digit (b % 16) ∷ push_hex bytes

unfoldable pub write_placeholder : SecretKind → Text
unfolding label
write_placeholder kind = codes "[REDACTED:" ++ (codes (label kind) ++ codes "]")

-- The map from values to names, each value once.
pub record DotenvCatalog : Type 0 where
  pub by_value : List (Text × Text)

unfoldable pub name_in : List (Text × Text) → Text → Option Text
unfolding bytes_eq
name_in [] raw = none
name_in ((value, name) ∷ entries) raw =
    if bytes_eq value raw then some name else name_in entries raw

-- `options.dotenv.and_then(|dotenv| dotenv.name_for(raw))`
unfoldable pub name_for : Option DotenvCatalog → Text → Option Text
unfolding name_in
name_for none raw = none
name_for (some catalog) raw = name_in catalog.by_value raw

-- What a call takes from elsewhere: `blake3::keyed_hash`, `getrandom::fill`, and the catalog among
-- its options.
pub record Outside : Type 0 where
  pub keyed_hash : Text → Text → Text
  pub random_key : Option Text
  pub dotenv : Option DotenvCatalog

abbrev finish : List Finding → Option Text → Redaction
finish findings none = err invalid_span
finish findings (some text) = ok (record { text = text; findings = findings })

module _ (outside : Outside) where
  unfoldable pub write_replacement : RedactionMode → Option Text → Text → Finding → Text
  unfolding push_hex write_placeholder name_for
  write_replacement env_ref key raw f = elim (name_for outside.dotenv raw) [
    | some name ↦ codes "${" ++ (name ++ codes "}")
    | none ↦ write_placeholder f.kind
  ]
  write_replacement schema_only key raw f = codes "<" ++ (codes (label f.kind) ++ codes ">")
  write_replacement placeholder key raw f = write_placeholder f.kind
  write_replacement surrogate none raw f = []
  write_replacement surrogate (some key) raw f =
      codes "{{BLINDFOLD:SURROGATE:v1:"
      ++ (codes (label f.kind)
          ++ (codes ":" ++ (push_hex (take 12 (outside.keyed_hash key raw)) ++ codes "}}")))
  write_replacement block key raw f = raw

  -- The loop over the findings and the suffix behind it; `none` is `InvalidSpan`.
  unfoldable pub replace_from :
      RedactionMode → Option Text → Text → ℕ → Text → List Finding → Option Text
  unfolding get write_replacement
  replace_from mode key input cursor output [] = do
    suffix ← get input cursor (length input)
    some (output ++ suffix)
  replace_from mode key input cursor output (f ∷ findings) = do
    prefix ← get input cursor f.span.start
    raw ← get input f.span.start f.span.end
    replace_from mode key input f.span.end ((output ++ prefix) ++ write_replacement mode key raw f)
        findings

  abbrev redact_with : RedactionMode → Option Text → Text → List Finding → Redaction
  redact_with mode key input findings = finish findings (replace_from mode key input 0 [] findings)

  -- Blocking comes first, and a key is drawn only where surrogates are written.
  unfoldable pub redact_findings : RedactionMode → Text → List Finding → Redaction
  unfolding replace_from
  redact_findings block input (f ∷ findings) = err blocked
  redact_findings surrogate input (f ∷ findings) = elim outside.random_key [
    | none ↦ err randomness_unavailable
    | some key ↦ redact_with surrogate (some key) input (f ∷ findings)
  ]
  redact_findings mode input findings = redact_with mode none input findings

  -- `Redactor::redact`; the first argument is `self.detectors.detect`.
  unfoldable pub redact : (Text → List Finding) → Text → RedactionMode → Redaction
  unfolding redact_findings
  redact detect input mode = redact_findings mode input (detect input)
