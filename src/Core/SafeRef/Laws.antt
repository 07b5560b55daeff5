-- ===== src/Core/SafeRef/Laws.antt =====
-- References that are made are parsed, and nothing else is.
use mathlib.Core.List.{append_assoc}
use blindfold.Prelude.{
  ==_iff, ◌⊎◌, ◌≤◌, &&_true, ℕ, ◌+◌, ◌≡◌, refl, sym, ap, subst, ◌∙◌, true, Option, none, some, [],
  ◌∷◌, ◌++◌, arith, Option-cases, inl, inr, length, length-append, All, ◌↔◌,
}
use blindfold.Core.SafeRef.{
  parse_stripped, strip, parse_body, parse_parts, parse_id, parse_sized, Text, SafeRefKind, as_str,
  SafeRefError, parse_kind, SafeRef, ok, is_id_byte, all_id_bytes, validate_id, encode, from_id,
  strip_prefix, split_once, parse, reference_prefix, reference_suffix, id_length,
}
use blindfold.Core.SafeRef.Pieces.{
  strip_prefix-append, strip_prefix-some, strip_suffix-append, strip_suffix-some, split_once-some,
  split_once-kind, parse_kind-as_str, parse_kind-some,
}

-- The bytes of an identifier: digits, and the letters from a to f in lower case.
abbrev pub IsIdByte : ℕ → Type 0
IsIdByte b = ((48 ≤ b) × (b ≤ 57)) ⊎ ((97 ≤ b) × (b ≤ 102))

pub record IsId (id : Text) : Type 0 where
  pub size : length id ≡ 32
  pub digits : All IsIdByte id

is_id_byte_iff : (b : ℕ) → (is_id_byte b ≡ true) ↔ IsIdByte b
unfolding is_id_byte
is_id_byte_iff b = ground arith

all_id_bytes-true : (id : Text) → all_id_bytes id ≡ true → All IsIdByte id
unfolding all_id_bytes
all_id_bytes-true [] h = tt
all_id_bytes-true (b ∷ id) h =
    let (x, y) = &&_true (is_id_byte b) (all_id_bytes id) h in
    ((is_id_byte_iff b).0 x, all_id_bytes-true id y)

all_id_bytes_of_All : (id : Text) → All IsIdByte id → all_id_bytes id ≡ true
unfolding all_id_bytes
all_id_bytes_of_All [] h = refl
all_id_bytes_of_All (b ∷ id) h = rw ((is_id_byte_iff b).1 h.0, all_id_bytes_of_All id h.1)

validate_id-none : (id : Text) → validate_id id ≡ none → IsId id
unfolding validate_id
validate_id-none id h = record { size = ground arith; digits = all_id_bytes-true id (ground arith) }

validate_id_of_id : (id : Text) → IsId id → validate_id id ≡ none
unfolding validate_id
validate_id_of_id id h = ground (arith, h.size, all_id_bytes_of_All id h.digits)

pub encode-length :
    (kind : SafeRefKind) (id : Text)
    → length id ≡ 32
    → length (encode kind id)
      ≡ length reference_prefix + length (as_str kind) + 1 + id_length + length reference_suffix
unfolding encode
encode-length kind id h = omega (
  arith,
  h,
  length-append reference_prefix (as_str kind ++ (58 ∷ (id ++ reference_suffix))),
  length-append (as_str kind) (58 ∷ (id ++ reference_suffix)),
  length-append id reference_suffix,
)

pub encode_body :
    (kind : SafeRefKind) (id : Text)
    → encode kind id ≡ reference_prefix ++ ((as_str kind ++ (58 ∷ id)) ++ reference_suffix)
unfolding encode
encode_body kind id =
    ap (◌++◌ reference_prefix) (sym (append_assoc (as_str kind) (58 ∷ id) reference_suffix))

parse_sized-fits :
    (value : Text) (kind : SafeRefKind)
    → length value
      ≡ length reference_prefix + length (as_str kind) + 1 + id_length + length reference_suffix
    → parse_sized value kind ≡ ok (record { kind = kind; encoded = value })
parse_sized-fits value kind h = rw ((==_iff (length value) _).1 h)

-- What the stages of `parse` see of a reference that was encoded.
pub parse-encode :
    (kind : SafeRefKind) (id : Text)
    → IsId id
    → parse (encode kind id) ≡ ok (record { kind = kind; encoded = encode kind id })
unfolding parse
parse-encode kind id h =
    let value = encode kind id in
    let body = as_str kind ++ (58 ∷ id) in
    let opened : strip_prefix value reference_prefix ≡ some (body ++ reference_suffix) =
      ap (λ t. strip_prefix t reference_prefix) (encode_body kind id)
      ∙ strip_prefix-append reference_prefix (body ++ reference_suffix) in
    ap (λ o. parse_stripped value (strip o)) opened
    ∙ ap (parse_stripped value) (strip_suffix-append body reference_suffix)
    ∙ ap (parse_body value) (split_once-kind kind id)
    ∙ ap (parse_parts value id) (parse_kind-as_str kind)
    ∙ ap (parse_id value kind) (validate_id_of_id id h)
    ∙ parse_sized-fits value kind (encode-length kind id h.size)

pub from_id-ok :
    (kind : SafeRefKind) (id : Text) (r : SafeRef)
    → from_id kind id ≡ ok r
    → IsId id × (r ≡ record { kind = kind; encoded = encode kind id })
unfolding from_id
from_id-ok kind id r h = elim (Option-cases (validate_id id)) [
  | inl e ↦ (validate_id-none id e, ground (arith, e))
  | inr (w, e) ↦ absurd (ground (arith, e))
]

pub from_id_of_id :
    (kind : SafeRefKind) (id : Text)
    → IsId id
    → from_id kind id ≡ ok (record { kind = kind; encoded = encode kind id })
unfolding from_id
from_id_of_id kind id h = rw (validate_id_of_id id h, from_id)

-- `from_id` makes a reference exactly from an identifier of 32 bytes that are digits or letters from
-- a to f in lower case.
pub from_id_iff :
    (kind : SafeRefKind) (id : Text) → ((r : SafeRef) × (from_id kind id ≡ ok r)) ↔ IsId id
from_id_iff kind id = (
  λ made. (from_id-ok kind id made.0 made.1).0,
  λ h. (record { kind = kind; encoded = encode kind id }, from_id_of_id kind id h),
)

-- Every reference that `from_id` makes is of the kind that was asked for, and is parsed back from its
-- encoded form.
pub parse-from_id :
    (kind : SafeRefKind) (id : Text) (r : SafeRef)
    → from_id kind id ≡ ok r
    → (r.kind ≡ kind) × (parse r.encoded ≡ ok r)
parse-from_id kind id r h =
    let (valid, same) = from_id-ok kind id r h in
    (
      ap (λ (x : SafeRef). x.kind) same,
      subst (λ x. parse x.encoded ≡ ok x) (sym same) (parse-encode kind id valid),
    )

parse_sized-ok :
    (value : Text) (kind : SafeRefKind) (r : SafeRef)
    → parse_sized value kind ≡ ok r
    → r ≡ record { kind = kind; encoded = value }
parse_sized-ok value kind r h = ground arith

parse_id-ok :
    (value : Text) (kind : SafeRefKind) (r : SafeRef) (o : Option SafeRefError)
    → parse_id value kind o ≡ ok r
    → (o ≡ none) × (r ≡ record { kind = kind; encoded = value })
parse_id-ok value kind r none h = (refl, parse_sized-ok value kind r h)
parse_id-ok value kind r (some e) h = cc

-- The parts of a text that is accepted.
record Accepted (value kind_text id : Text) (r : SafeRef) : Type 0 where
  named : kind_text ≡ as_str r.kind
  valid : IsId id
  kept : r.encoded ≡ value

parse_parts-ok :
    (value kind_text id : Text) (r : SafeRef) (o : Option SafeRefKind)
    → parse_kind kind_text ≡ o
    → parse_parts value id o ≡ ok r
    → Accepted value kind_text id r
parse_parts-ok value kind_text id r none e h = cc
parse_parts-ok value kind_text id r (some kind) e h =
    let (n, same) = parse_id-ok value kind r (validate_id id) h in
    record {
      named = parse_kind-some kind_text kind e ∙ ap (λ (x : SafeRef). as_str x.kind) (sym same);
      valid = validate_id-none id n;
      kept = ap (λ (x : SafeRef). x.encoded) same;
    }

parse_body-ok :
    (value : Text) (r : SafeRef) (o : Option (Text × Text))
    → parse_body value o ≡ ok r
    → (kind_text : Text) × (id : Text) × (o ≡ some (kind_text, id)) × Accepted value kind_text id r
parse_body-ok value r none h = cc
parse_body-ok value r (some (kind_text, id)) h =
    (kind_text, id, refl, parse_parts-ok value kind_text id r (parse_kind kind_text) refl h)

parse_stripped-ok :
    (value : Text) (r : SafeRef) (o : Option Text)
    → parse_stripped value o ≡ ok r
    → (body : Text) × (o ≡ some body) × (parse_body value (split_once body) ≡ ok r)
parse_stripped-ok value r none h = cc
parse_stripped-ok value r (some body) h = (body, refl, h)

strip-some :
    (o : Option Text) (body : Text)
    → strip o ≡ some body
    → (rest : Text) × (o ≡ some rest) × (rest ≡ body ++ reference_suffix)
strip-some none body h = cc
strip-some (some rest) body h = (rest, refl, strip_suffix-some rest reference_suffix body h)

-- Every text that `parse` accepts is kept as it is, and is the text that `from_id` encodes for the
-- same kind and some identifier.
pub parse-accepts :
    (value : Text) (r : SafeRef)
    → parse value ≡ ok r
    → (r.encoded ≡ value) × ((id : Text) × (from_id r.kind id ≡ ok r))
unfolding parse
parse-accepts value r h =
    let (body, s, h') = parse_stripped-ok value r (strip (strip_prefix value reference_prefix)) h in
    let (rest, o, k) = strip-some (strip_prefix value reference_prefix) body s in
    let (kind_text, id, e, a) = parse_body-ok value r (split_once body) h' in
    let whole : value ≡ encode r.kind id =
      strip_prefix-some reference_prefix value rest o
      ∙ ap (λ t. reference_prefix ++ t) k
      ∙ ap (λ t. reference_prefix ++ (t ++ reference_suffix)) (split_once-some body kind_text id e)
      ∙ ap (λ t. reference_prefix ++ ((t ++ (58 ∷ id)) ++ reference_suffix)) a.named
      ∙ sym (encode_body r.kind id) in
    let same : record { kind = r.kind; encoded = encode r.kind id } ≡ r =
      λ i. record { kind = r.kind; encoded = sym (a.kept ∙ whole) i } in
    (a.kept, (id, from_id_of_id r.kind id a.valid ∙ ap ok same))
