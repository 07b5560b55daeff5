-- ===== src/Proxy/Events/Safe.antt =====
-- What `sanitize_sse` puts out: lines that the sanitizer has nothing left to do on.
use mathlib.Core.List.{append_assoc}
use blindfold.Prelude.{
  ℕ, ◌≡◌, ◌≢◌, refl, sym, subst, ◌∙◌, arith, inl, inr, true, false, Bool-cases, Option, none, some,
  List, [], ◌∷◌, ◌++◌, ◌==◌, All, All-append, All-and, All-map, ◌>>=◌, >>=-eq-some, codes,
  bytes_eq→eq,
}
use blindfold.Prelude.Splitting.{split_on, unlines, unlines-append}
use blindfold.Core.SafeRef.{Text}
use blindfold.Proxy.Sanitize.{Sanitizer, Value, Observation, is_unchanged, require, sanitize_json}
use blindfold.Proxy.Sanitize.Clean.{IsFixed, IsClean, require-true, sanitize_json-IsClean}
use blindfold.Proxy.Events.{
  Provider, open_ai, anthropic, Json, from_utf8, normalized, SseEvent, no_event, has_byte, is_idle,
  join_lines, Out, is_one_line, write_sse_text_field, write_field, write_retry, is_done,
  write_payload, write_data, write_sanitized, push_line, write_events, sanitize_sse,
}

-- The text is one line, without a null byte.
abbrev pub IsOneLine : Text → Type 0
IsOneLine = All (λ c. (c ≢ 13) × (c ≢ 10) × (c ≢ 0))

-- A line that may leave the proxy.
pub data IsSafeLine (json : Json) (provider : Provider) (s : Sanitizer) (line : Text) : Type 0 where
  blank : line ≡ [] → IsSafeLine json provider s line
  event_line :
      (value : Text)
      → line ≡ codes "event: " ++ value
      → IsFixed s value
      → IsOneLine value
      → IsSafeLine json provider s line
  id_line :
      (value : Text)
      → line ≡ codes "id: " ++ value
      → IsFixed s value
      → IsOneLine value
      → IsSafeLine json provider s line
  retry_line :
      (value : Text)
      → line ≡ codes "retry: " ++ value
      → IsFixed s value
      → IsSafeLine json provider s line
  done_line : provider ≡ open_ai → line ≡ codes "data: [DONE]" → IsSafeLine json provider s line
  data_line :
      (value : Value) (text : Text)
      → line ≡ codes "data: " ++ text
      → json.to_string value ≡ some text
      → IsClean s value
      → IsSafeLine json provider s line

has_byte-false : (b : ℕ) (text : Text) → has_byte b text ≡ false → All (λ c. c ≢ b) text
has_byte-false b [] h = tt
has_byte-false b (c ∷ text) h = elim (Bool-cases (c == b)) [
  | inl t ↦ absurd (cc (rw t at h))
  | inr f ↦ (ground (arith, f), has_byte-false b text (rw f at h))
]

is_one_line-true : (text : Text) → is_one_line text ≡ true → IsOneLine text
is_one_line-true text h =
    let a : has_byte 13 text ≡ false = ground (arith, h) in
    let b : has_byte 10 text ≡ false = ground (arith, h) in
    let c : has_byte 0 text ≡ false = ground (arith, h) in
    All-map (λ x. (x ≢ 13) × ((x ≢ 10) × (x ≢ 0))) (λ x. (x ≢ 13) × (x ≢ 10) × (x ≢ 0))
      (λ x k. (k.0, k.1.0, k.1.1)) text
      (All-and (λ x. x ≢ 13) (λ x. (x ≢ 10) × (x ≢ 0)) text (has_byte-false 13 text a)
        (All-and (λ x. x ≢ 10) (λ x. x ≢ 0) text (has_byte-false 10 text b)
          (has_byte-false 0 text c)))

out-eq : (x y : Out) → some x ≡ some y → x ≡ y
out-eq x y e = cc

is_done-true :
    (provider : Provider) (payload : Text)
    → is_done provider payload ≡ true
    → (provider ≡ open_ai) × (payload ≡ codes "[DONE]")
is_done-true open_ai payload h = (refl, bytes_eq→eq payload (codes "[DONE]") h)
is_done-true anthropic payload h = cc

module _ (json : Json) (provider : Provider) (s : Sanitizer) where
  -- The output is safe lines, each with its line feed.
  pub record IsSafe (output : Text) : Type 0 where
    pub texts : List Text
    pub written : output ≡ unlines texts
    pub safe : All (IsSafeLine json provider s) texts

  add_lines :
      (output suffix : Text) (texts : List Text)
      → IsSafe output
      → All (IsSafeLine json provider s) texts
      → suffix ≡ unlines texts
      → IsSafe (output ++ suffix)
  add_lines output suffix texts h k e = record {
    texts = h.texts ++ texts;
    written = (λ i. h.written i ++ e i) ∙ sym (unlines-append h.texts texts);
    safe = All-append (IsSafeLine json provider s) h.texts texts h.safe k;
  }

  module _ (stable : (text : Text) → IsFixed s (s.sanitize_traced text).0) where
    write_sse_text_field-IsSafe :
        (name value pointer : Text) (out after : Out)
        → ((t : Text)
            → IsFixed s t
            → IsOneLine t
            → IsSafeLine json provider s (name ++ (codes ": " ++ t)))
        → IsSafe out.0
        → write_sse_text_field json provider s name value pointer out ≡ some after
        → IsSafe after.0
    unfolding write_sse_text_field unlines
    write_sse_text_field-IsSafe name value pointer out after named h e =
        let t = (s.sanitize_traced value).0 in
        let (u, one, f) = >>=-eq-some (require (is_one_line t)) _ e in
        let k = named t (stable value) (is_one_line-true t (require-true (is_one_line t) u one)) in
        subst (λ (o : Out). IsSafe o.0) (out-eq _ after f)
          (add_lines out.0 (name ++ (codes ": " ++ (t ++ 10 ∷ [])))
            ((name ++ (codes ": " ++ t)) ∷ []) h (k, tt)
            (sym (append_assoc name (codes ": " ++ t) (10 ∷ []))))

    write_field-IsSafe :
        (name pointer : Text) (value : Option Text) (out after : Out)
        → ((t : Text)
            → IsFixed s t
            → IsOneLine t
            → IsSafeLine json provider s (name ++ (codes ": " ++ t)))
        → IsSafe out.0
        → write_field json provider s name pointer value out ≡ some after
        → IsSafe after.0
    write_field-IsSafe name pointer none out after named h e =
        subst (λ (o : Out). IsSafe o.0) (out-eq out after e) h
    write_field-IsSafe name pointer (some value) out after named h e =
        write_sse_text_field-IsSafe name value pointer out after named h e

    write_retry-IsSafe :
        (retry : Option Text) (out after : Out)
        → IsSafe out.0
        → write_retry json provider s retry out ≡ some after
        → IsSafe after.0
    unfolding unlines
    write_retry-IsSafe none out after h e = subst (λ (o : Out). IsSafe o.0) (out-eq out after e) h
    write_retry-IsSafe (some retry) out after h e =
        let (u, same, f) = >>=-eq-some (require (is_unchanged s retry)) _ e in
        let fixed =
          bytes_eq→eq (s.sanitize retry) retry (require-true (is_unchanged s retry) u same) in
        subst (λ (o : Out). IsSafe o.0) (out-eq _ after f)
          (add_lines out.0 (codes "retry: " ++ (retry ++ 10 ∷ [])) ((codes "retry: " ++ retry) ∷ [])
            h (retry_line retry refl fixed, tt) refl)

    write_value-IsSafe :
        (payload : Text) (out after : Out)
        → IsSafe out.0
        → (json.from_str payload >>= λ value.
            (sanitize_json s value >>= λ parts.
            (json.to_string parts.0 >>= λ text.
            some (out.0 ++ (codes "data: " ++ (text ++ 10 ∷ 10 ∷ [])), out.1 ++ parts.1))))
          ≡ some after
        → IsSafe after.0
    unfolding unlines
    write_value-IsSafe payload out after h e =
        let (value, read, f) = >>=-eq-some (json.from_str payload) _ e in
        let ((safe, seen), walked, g) = >>=-eq-some (sanitize_json s value) _ f in
        let (text, printed, k) = >>=-eq-some (json.to_string safe) _ g in
        let clean = sanitize_json-IsClean s stable value safe seen walked in
        subst (λ (o : Out). IsSafe o.0) (out-eq _ after k)
          (add_lines out.0 (codes "data: " ++ (text ++ 10 ∷ 10 ∷ []))
            ((codes "data: " ++ text) ∷ [] ∷ []) h
            (data_line safe text refl printed clean.0, (blank refl, tt)) refl)

    write_payload-IsSafe :
        (payload : Text) (out after : Out)
        → IsSafe out.0
        → write_payload json provider s payload out ≡ some after
        → IsSafe after.0
    unfolding write_payload unlines
    write_payload-IsSafe payload out after h e = elim (Bool-cases (is_done provider payload)) [
      | inl t ↦
          let (own, same) = is_done-true provider payload t in
          subst (λ (o : Out). IsSafe o.0) (out-eq _ after (rw t at e))
            (add_lines out.0 (codes "data: [DONE]\n\n") (codes "data: [DONE]" ∷ [] ∷ []) h
              (done_line own refl, (blank refl, tt)) refl)
      | inr f ↦ write_value-IsSafe payload out after h (rw f at e)
    ]

    write_data-IsSafe :
        (lines : List Text) (out after : Out)
        → IsSafe out.0
        → write_data json provider s lines out ≡ some after
        → IsSafe after.0
    unfolding unlines
    write_data-IsSafe [] out after h e =
        subst (λ (o : Out). IsSafe o.0) (out-eq _ after e)
          (add_lines out.0 (10 ∷ []) ([] ∷ []) h (blank refl, tt) refl)
    write_data-IsSafe (line ∷ lines) out after h e =
        write_payload-IsSafe (join_lines (line ∷ lines)) out after h e

    write_sanitized-IsSafe :
        (e : SseEvent) (out after : Out)
        → IsSafe out.0
        → write_sanitized json provider s e out ≡ some after
        → IsSafe after.0
    unfolding write_sanitized
    write_sanitized-IsSafe e out after h k = elim (Bool-cases (is_idle e)) [
      | inl t ↦ subst (λ (o : Out). IsSafe o.0) (out-eq out after (rw t at k)) h
      | inr f ↦
          let (named, a, l) =
            >>=-eq-some
              (write_field json provider s (codes "event") (codes "/sse/event") e.event out) _
              (rw f at k) in
          let (known, b, m) =
            >>=-eq-some (write_field json provider s (codes "id") (codes "/sse/id") e.id named) _
              l in
          let (timed, c, n) = >>=-eq-some (write_retry json provider s e.retry known) _ m in
          let x =
            write_field-IsSafe (codes "event") (codes "/sse/event") e.event out named
              (λ t i o. event_line t refl i o) h a in
          let y =
            write_field-IsSafe (codes "id") (codes "/sse/id") e.id named known
              (λ t i o. id_line t refl i o) x b in
          write_data-IsSafe e.lines timed after (write_retry-IsSafe e.retry known timed y c) n
    ]

    write_events-IsSafe :
        (lines : List Text) (e : SseEvent) (out after : Out)
        → IsSafe out.0
        → write_events json provider s lines e out ≡ some after
        → IsSafe after.0
    unfolding write_events
    write_events-IsSafe [] e out after h k = write_sanitized-IsSafe e out after h k
    write_events-IsSafe ([] ∷ lines) e out after h k =
        let (mid, f, g) = >>=-eq-some (write_sanitized json provider s e out) _ k in
        write_events-IsSafe lines no_event mid after (write_sanitized-IsSafe e out mid h f) g
    write_events-IsSafe ((c ∷ line) ∷ lines) e out after h k =
        write_events-IsSafe lines (push_line (c ∷ line) e) out after h k

    -- Let the sanitizer leave alone what it has made of any text. Then what `sanitize_sse` puts out is
    -- a sequence of lines, each of which is blank, or names an event or an identifier that is one line
    -- and that the sanitizer would not change, or a retry time that it would not change, or is OpenAI's
    -- mark for the end of the stream, or has as data a JSON value without any text that it would
    -- change.
    pub sanitize_sse-IsSafe :
        (body : List ℕ) (output : Text) (observations : List Observation)
        → sanitize_sse json provider s body ≡ some (output, observations)
        → IsSafe output
    unfolding sanitize_sse unlines
    sanitize_sse-IsSafe body output observations e =
        let (text, valid, f) = >>=-eq-some (from_utf8 body) _ e in
        write_events-IsSafe (split_on 10 (normalized text)) no_event ([], []) (output, observations)
          (record { texts = []; written = refl; safe = tt }) f
