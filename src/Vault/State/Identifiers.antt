-- ===== src/Vault/State/Identifiers.antt =====
-- The kinds and the identifiers of the vault as they are written down, and read back.
use mathlib.Core.List.{append_assoc}
use blindfold.Prelude.{
  ℕ, ◌+◌, ◌/◌, ◌%◌, ◌<◌, ◌≡◌, refl, sym, ap, ◌∙◌, arith, false, none, some, [], ◌∷◌, ◌++◌, ◌==◌,
  length, All,
}
use blindfold.Core.SafeRef.{
  Text, SafeRefKind, strip_suffix, reference_suffix, encode, as_str, reference_prefix,
}
use blindfold.Core.SafeRef.Laws.{IsId, IsIdByte, encode_body}
use blindfold.Core.SafeRef.Pieces.{strip_suffix-append}
use blindfold.Vault.State.{
  ok, kind_code, decode_kind, hex_digit, encode_hex, after_last_colon, or_reject, after_colon,
  reference_id,
}

hex_digit-IsIdByte : (d : ℕ) → d < 16 → IsIdByte (hex_digit d)
hex_digit-IsIdByte d h = ground arith

abbrev pub IsBytes : Text → Type 0
IsBytes = All (λ b. b < 256)

encode_hex-All : (bytes : Text) → IsBytes bytes → All IsIdByte (encode_hex bytes)
unfolding encode_hex
encode_hex-All [] h = tt
encode_hex-All (b ∷ bytes) h = (
  hex_digit-IsIdByte (b / 16) (omega (arith, h.0)),
  (hex_digit-IsIdByte (b % 16) (omega arith), encode_hex-All bytes h.1),
)

length-encode_hex : (bytes : Text) → length (encode_hex bytes) ≡ length bytes + length bytes
unfolding encode_hex
length-encode_hex [] = refl
length-encode_hex (b ∷ bytes) = omega (arith, length-encode_hex bytes)

pub encode_hex-IsId : (bytes : Text) → length bytes ≡ 16 → IsBytes bytes → IsId (encode_hex bytes)
encode_hex-IsId bytes size h = record {
  size = omega (arith, length-encode_hex bytes, size);
  digits = encode_hex-All bytes h;
}

no_colon : (id : Text) → All IsIdByte id → after_last_colon id ≡ none
unfolding after_last_colon
no_colon [] h = refl
no_colon (b ∷ id) h =
    let other : (b == 58) ≡ false = ground (arith, h.0) in rw (no_colon id h.1, other)

after_last_colon-append :
    (text id : Text) → All IsIdByte id → after_last_colon (text ++ (58 ∷ id)) ≡ some id
unfolding after_last_colon
after_last_colon-append [] id h = rw (no_colon id h)
after_last_colon-append (b ∷ text) id h = rw (after_last_colon-append text id h)

pub reference_id-encode :
    (kind : SafeRefKind) (id : Text)
    → IsId id
    → reference_id (record { kind = kind; encoded = encode kind id }) ≡ ok id
unfolding reference_id
reference_id-encode kind id h =
    let front = reference_prefix ++ (as_str kind ++ (58 ∷ id)) in
    let grouped : encode kind id ≡ front ++ reference_suffix =
      encode_body kind id
      ∙ sym (append_assoc reference_prefix (as_str kind ++ (58 ∷ id)) reference_suffix) in
    let stripped : strip_suffix (encode kind id) reference_suffix ≡ some front =
      ap (λ t. strip_suffix t reference_suffix) grouped
      ∙ strip_suffix-append front reference_suffix in
    let last : after_last_colon front ≡ some id =
      ap after_last_colon (sym (append_assoc reference_prefix (as_str kind) (58 ∷ id)))
      ∙ after_last_colon-append (reference_prefix ++ as_str kind) id h.digits in
    ap (λ o. or_reject (after_colon o)) stripped ∙ ap or_reject last

pub decode_kind-ok :
    (code : ℕ) (kind : SafeRefKind) → decode_kind code ≡ ok kind → code ≡ kind_code kind
unfolding decode_kind kind_code
decode_kind-ok code kind h = ground (arith, h)
