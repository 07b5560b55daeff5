-- ===== src/Diff/Builtin/Masking/References.antt =====
-- What blanking and trimming make of a text with a reference in it.
use mathlib.Core.List.{append_assoc}
use blindfold.Prelude.{
  All-map, ℕ, suc, ◌+◌, subst, ◌≡◌, ◌≢◌, ◌≤◌, refl, sym, ap, ◌∙◌, some, [], ◌∷◌, ◌++◌, arith,
  length, All, All-append, codes,
}
use blindfold.Core.SafeRef.{
  reference_suffix, id_length, secret, environment, personally_identifiable_information,
  private_key, certificate, Text, SafeRefKind, encode, as_str, reference_prefix,
}
use blindfold.Core.SafeRef.Laws.{IsId, IsIdByte, parse-encode, encode-length, encode_body}
use blindfold.Diff.Text.{split_once, is_whitespace}
use blindfold.Diff.Text.Laws.{Without, split_once-at}
use blindfold.Diff.Builtin.Encoding.{
  utf8_char, utf8, byte_length, trim_start_matches, trim_end_matches,
}
use blindfold.Diff.Builtin.Encoding.Laws.{trim_start_matches-append, trim_end_matches-append}
use blindfold.Diff.Builtin.Masking.{
  blank, mask_candidate, mask_found, mask_inner, mask_prefix, mask_from,
}

-- Ascii characters are their own bytes.
utf8_ascii : (text : Text) → All (λ c. c ≤ 127) text → utf8 text ≡ text
unfolding utf8 utf8_char
utf8_ascii [] h = refl
utf8_ascii (c ∷ text) h = ground (arith, utf8_ascii text h.1)

-- A printed character that is no brace.
abbrev IsPlain : ℕ → Type 0
IsPlain c = (c ≤ 122) × (33 ≤ c)

id_byte_plain : (b : ℕ) → IsIdByte b → IsPlain b
id_byte_plain b h = ground arith

as_str_plain : (kind : SafeRefKind) → All IsPlain (as_str kind)
unfolding as_str
as_str_plain secret = ground arith
as_str_plain environment = ground arith
as_str_plain personally_identifiable_information = ground arith
as_str_plain private_key = ground arith
as_str_plain certificate = ground arith

module _ (kind : SafeRefKind) (id : Text) (valid : IsId id) where
  body : Text
  body = as_str kind ++ (58 ∷ id)

  body_plain : All IsPlain body
  unfolding body
  body_plain =
      All-append IsPlain (as_str kind) (58 ∷ id) (as_str_plain kind)
        (ground arith, All-map IsIdByte IsPlain id_byte_plain id valid.digits)

  inner_ascii : All (λ c. c ≤ 124) (mask_prefix ++ body)
  inner_ascii =
      All-append (λ c. c ≤ 124) mask_prefix body (ground arith)
        (All-map IsPlain (λ c. c ≤ 124) (λ c h. ground arith) body body_plain)

  inner-Without : Without 125 (mask_prefix ++ body)
  inner-Without =
      All-map (λ c. c ≤ 124) (λ c. c ≢ 125) (λ c h. ground arith) (mask_prefix ++ body) inner_ascii

  encode_inner : encode kind id ≡ (mask_prefix ++ body) ++ reference_suffix
  unfolding body
  encode_inner = encode_body kind id

  encode_ascii : All (λ c. c ≤ 127) (encode kind id)
  encode_ascii = subst (All (λ c. c ≤ 127)) (sym encode_inner) (
      All-append (λ c. c ≤ 127) (mask_prefix ++ body) reference_suffix
        (All-map (λ c. c ≤ 124) (λ c. c ≤ 127) (λ c h. omega (arith, h)) (mask_prefix ++ body)
          inner_ascii)
        (ground arith))

  -- The blanks that a reference becomes.
  pub mask_candidate-encode :
      mask_candidate (encode kind id)
      ≡ blank
          (length reference_prefix + length (as_str kind) + 1 + id_length + length reference_suffix)
  unfolding mask_candidate byte_length
  mask_candidate-encode = rw (
    utf8_ascii (encode kind id) encode_ascii,
    parse-encode kind id valid,
    encode-length kind id valid.size,
  )

  split_inner :
      (back : Text)
      → split_once (encode kind id ++ back) (codes "}}") ≡ some (mask_prefix ++ body, back)
  split_inner back =
      ap (λ t. split_once t (codes "}}"))
        (ap (λ t. t ++ back) encode_inner
          ∙ append_assoc (mask_prefix ++ body) reference_suffix back)
      ∙ split_once-at (mask_prefix ++ body) back 125 (125 ∷ []) inner-Without

  -- A round that meets a reference.
  pub mask_from-reference :
      (fuel : ℕ) (front back : Text)
      → Without 123 front
      → mask_from (suc fuel) (front ++ (encode kind id ++ back))
        ≡ front ++ (mask_candidate (encode kind id) ++ mask_from fuel back)
  unfolding mask_from
  mask_from-reference fuel front back h =
      let text = front ++ (encode kind id ++ back) in
      let mask = mask_from fuel in
      let opened : split_once text mask_prefix ≡ some (front, (body ++ reference_suffix) ++ back) =
        ap (λ t. split_once (front ++ (t ++ back)) mask_prefix) encode_inner
        ∙ split_once-at front ((body ++ reference_suffix) ++ back) 123 (codes "{BLINDFOLD:v1:") h in
      let closed =
        ap (λ t. split_once (t ++ back) (codes "}}")) (sym encode_inner) ∙ split_inner back in
      ap (mask_found mask text) opened
      ∙ ap (mask_inner front mask text) closed
      ∙ ap (λ t. front ++ (mask_candidate t ++ mask back)) (sym encode_inner)

  -- Trimming stops at a reference.
  pub trim_start-reference :
      (front back : Text)
      → trim_start_matches is_whitespace (front ++ (encode kind id ++ back))
        ≡ trim_start_matches is_whitespace front ++ (encode kind id ++ back)
  unfolding encode is_whitespace
  trim_start-reference front back =
      trim_start_matches-append is_whitespace 123 refl front
        ((codes "{BLINDFOLD:v1:" ++ (as_str kind ++ (58 ∷ (id ++ reference_suffix)))) ++ back)

  encode_last :
      (front back : Text)
      → front ++ (encode kind id ++ back)
        ≡ (front ++ ((mask_prefix ++ body) ++ (125 ∷ []))) ++ (125 ∷ back)
  encode_last front back =
      ap (λ t. front ++ (t ++ back)) encode_inner
      ∙ ap (λ t. front ++ t) (append_assoc (mask_prefix ++ body) reference_suffix back)
      ∙ ap (λ t. front ++ t) (sym (append_assoc (mask_prefix ++ body) (125 ∷ []) (125 ∷ back)))
      ∙ sym (append_assoc front ((mask_prefix ++ body) ++ (125 ∷ [])) (125 ∷ back))

  pub trim_end-reference :
      (front back : Text)
      → trim_end_matches is_whitespace (front ++ (encode kind id ++ back))
        ≡ front ++ (encode kind id ++ trim_end_matches is_whitespace back)
  unfolding is_whitespace
  trim_end-reference front back =
      ap (trim_end_matches is_whitespace) (encode_last front back)
      ∙ trim_end_matches-append is_whitespace 125 refl
          (front ++ ((mask_prefix ++ body) ++ (125 ∷ []))) back
      ∙ sym (encode_last front (trim_end_matches is_whitespace back))
