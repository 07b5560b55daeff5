-- ===== src/Core/SafeRef.antt =====
-- crates/blindfold-core/src/safe_ref.rs: opaque references to protected values. Text is a list of
-- UTF-8 bytes, and the encoded form is kept as the source keeps it.
pub mod Pieces
pub mod Laws
use Prim.Native.String.{String}
use blindfold.Prelude.{
  ℕ, ◌+◌, ◌-◌, Bool, true, false, not, ◌&&◌, ◌||◌, Option, none, some, List, [], ◌∷◌, ◌++◌, leb,
  ◌==◌, if◌then◌else◌, length, take, drop, codes, bytes_eq,
}

abbrev pub Text : Type 0
Text = List ℕ

abbrev pub reference_prefix : Text
reference_prefix = codes "{{BLINDFOLD:v1:"

abbrev pub reference_suffix : Text
reference_suffix = codes "}}"

abbrev pub id_length : ℕ
id_length = 32

pub data SafeRefKind : Type 0 where
  secret environment personally_identifiable_information private_key certificate : SafeRefKind

abbrev kind_name : SafeRefKind → String
kind_name secret = "SECRET"
kind_name environment = "ENV"
kind_name personally_identifiable_information = "PII"
kind_name private_key = "PRIVATE_KEY"
kind_name certificate = "CERT"

-- `SafeRefKind::as_str`
unfoldable pub as_str : SafeRefKind → Text
as_str kind = codes (kind_name kind)

pub data SafeRefError : Type 0 where
  invalid_length invalid_format invalid_kind invalid_identifier : SafeRefError

-- `SafeRefKind::parse`; `none` is `InvalidKind`.
unfoldable pub parse_kind : Text → Option SafeRefKind
unfolding as_str
parse_kind value =
    if bytes_eq value (as_str secret)
    then some secret
    else if bytes_eq value (as_str environment)
    then some environment
    else if bytes_eq value (as_str personally_identifiable_information)
    then some personally_identifiable_information
    else if bytes_eq value (as_str private_key)
    then some private_key
    else if bytes_eq value (as_str certificate)
    then some certificate
    else none

pub record SafeRef : Type 0 where
  pub kind : SafeRefKind
  pub encoded : Text

pub data Parsed : Type 0 where
  ok : SafeRef → Parsed
  err : SafeRefError → Parsed

-- `byte.is_ascii_hexdigit() && !byte.is_ascii_uppercase()`
unfoldable pub is_id_byte : ℕ → Bool
is_id_byte b =
    ((leb 48 b && leb b 57) || ((leb 65 b && leb b 70) || (leb 97 b && leb b 102)))
    && not (leb 65 b && leb b 90)

-- `bytes().all(…)`
unfoldable pub all_id_bytes : Text → Bool
unfolding is_id_byte
all_id_bytes [] = true
all_id_bytes (b ∷ id) = is_id_byte b && all_id_bytes id

-- `none` is `Ok(())`.
unfoldable pub validate_id : Text → Option SafeRefError
unfolding all_id_bytes
validate_id id =
    if not (length id == id_length)
    then some invalid_length
    else if not (all_id_bytes id)
    then some invalid_identifier
    else none

unfoldable pub encode : SafeRefKind → Text → Text
unfolding as_str
encode kind id = reference_prefix ++ (as_str kind ++ (58 ∷ (id ++ reference_suffix)))

unfoldable pub from_id : SafeRefKind → Text → Parsed
unfolding validate_id encode
from_id kind id = elim (validate_id id) [
  | some e ↦ err e
  | none ↦ ok (record { kind = kind; encoded = encode kind id })
]

-- `str::strip_prefix`, `str::strip_suffix` and `str::split_once(':')`
unfoldable pub strip_prefix : Text → Text → Option Text
strip_prefix text [] = some text
strip_prefix [] (p ∷ ps) = none
strip_prefix (b ∷ text) (p ∷ ps) = if b == p then strip_prefix text ps else none

unfoldable pub strip_suffix : Text → Text → Option Text
strip_suffix text suffix =
    let n = length text - length suffix in
    if bytes_eq (drop n text) suffix then some (take n text) else none

abbrev after_byte : ℕ → Option (Text × Text) → Option (Text × Text)
after_byte b none = none
after_byte b (some (before, behind)) = some (b ∷ before, behind)

unfoldable pub split_once : Text → Option (Text × Text)
split_once [] = none
split_once (b ∷ text) = if b == 58 then some ([], text) else after_byte b (split_once text)

abbrev pub parse_sized : Text → SafeRefKind → Parsed
parse_sized value kind =
    if length value
      == length reference_prefix + length (as_str kind) + 1 + id_length + length reference_suffix
    then ok (record { kind = kind; encoded = value })
    else err invalid_length

abbrev pub parse_id : Text → SafeRefKind → Option SafeRefError → Parsed
parse_id value kind (some e) = err e
parse_id value kind none = parse_sized value kind

abbrev pub parse_parts : Text → Text → Option SafeRefKind → Parsed
parse_parts value id none = err invalid_kind
parse_parts value id (some kind) = parse_id value kind (validate_id id)

abbrev pub parse_body : Text → Option (Text × Text) → Parsed
parse_body value none = err invalid_format
parse_body value (some (kind, id)) = parse_parts value id (parse_kind kind)

abbrev pub parse_stripped : Text → Option Text → Parsed
parse_stripped value none = err invalid_format
parse_stripped value (some body) = parse_body value (split_once body)

abbrev pub strip : Option Text → Option Text
strip none = none
strip (some rest) = strip_suffix rest reference_suffix

unfoldable pub parse : Text → Parsed
unfolding strip_prefix strip_suffix split_once parse_kind validate_id as_str
parse value = parse_stripped value (strip (strip_prefix value reference_prefix))
