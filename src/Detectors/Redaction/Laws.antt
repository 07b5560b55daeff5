-- ===== src/Detectors/Redaction/Laws.antt =====
-- What `redact` promises: when it returns text, which text, and what the text cannot depend on.
use blindfold.Prelude.{
  ℕ, ◌-◌, ◌≤◌, ◌<◌, ◌≡◌, ◌≢◌, refl, sym, ap, subst, ◌∙◌, ◌⊎◌, inl, inr, true, Option, none, some,
  List, [], ◌∷◌, ◌++◌, arith, le→leb, length, take, drop, drop_all, take_all, All, All-map,
  >>=-eq-some,
}
use blindfold.Detectors.Finding.{Finding}
use blindfold.Detectors.Overlap.Laws.{IsRun}
use blindfold.Detectors.Redaction.{
  Text, RedactionMode, schema_only, placeholder, block, blocked, RedactionOutput, ok, err, Outside,
  is_char_boundary, get, write_replacement, replace_from, redact_findings, redact, finish,
}
use blindfold.Detectors.Redaction.Weave.{get→Slice, Woven, replace_from-Woven}

-- A span that can be cut out of the text.
pub record InText (input : Text) (f : Finding) : Type 0 where
  pub nonempty : f.span.start < f.span.end
  pub inside : f.span.end ≤ length input
  pub starts : is_char_boundary input f.span.start ≡ true
  pub ends : is_char_boundary input f.span.end ≡ true

get-some :
    (input : Text) (start end : ℕ)
    → start ≤ end
    → is_char_boundary input start ≡ true
    → is_char_boundary input end ≡ true
    → get input start end ≡ some (take (end - start) (drop start input))
unfolding get
get-some input start end h s e = rw (le→leb start end h, s, e)

boundary_start : (input : Text) → is_char_boundary input 0 ≡ true
unfolding is_char_boundary
boundary_start input = ground arith

boundary_end : (input : Text) → is_char_boundary input (length input) ≡ true
unfolding is_char_boundary
boundary_end input = rw (drop_all (length input) input (omega arith)) (ground arith)

module _ (outside : Outside) (mode : RedactionMode) (key : Option Text) (input : Text) where
  -- Spans in order, inside the text and between characters: the loop does not fail.
  replace_from_total :
      (cursor : ℕ) (output : Text) (fs : List Finding)
      → cursor ≤ length input
      → is_char_boundary input cursor ≡ true
      → All (λ f. cursor ≤ f.span.start) fs
      → IsRun fs
      → All (InText input) fs
      → (text : Text) × (replace_from outside mode key input cursor output fs ≡ some text)
  unfolding replace_from
  replace_from_total cursor output [] fits here after run inside = (
    output ++ take (length input - cursor) (drop cursor input),
    rw (get-some input cursor (length input) fits here (boundary_end input)),
  )
  replace_from_total cursor output (f ∷ fs) fits here after run inside =
      let (text, e) =
        replace_from_total f.span.end
          ((output ++ take (f.span.start - cursor) (drop cursor input))
            ++ write_replacement outside mode key
                (take (f.span.end - f.span.start) (drop f.span.start input)) f)
          fs inside.0.inside inside.0.ends run.0 run.1 inside.1 in
      (
        text,
        rw
            (
              get-some input cursor f.span.start after.0 here inside.0.starts,
              get-some input f.span.start f.span.end (omega (arith, inside.0.nonempty))
                  inside.0.starts inside.0.ends,
            )
            e,
      )

-- Two texts that are equal between the spans, from `c` on.
abbrev pub SameOutside : ℕ → List Finding → Text → Text → Type 0
SameOutside c [] a b = drop c a ≡ drop c b
SameOutside c (f ∷ fs) a b =
    (take (f.span.start - c) (drop c a) ≡ take (f.span.start - c) (drop c b))
    × SameOutside f.span.end fs a b

module _ (outside : Outside) (mode : RedactionMode) (a b : Text)
    (blind : (x y : Text) (f : Finding)
      → write_replacement outside mode none x f ≡ write_replacement outside mode none y f) where
  -- If the replacement does not look at the secret, neither does the output.
  replace_from-blind :
      (cursor : ℕ) (output t u : Text) (fs : List Finding)
      → SameOutside cursor fs a b
      → length a ≡ length b
      → replace_from outside mode none a cursor output fs ≡ some t
      → replace_from outside mode none b cursor output fs ≡ some u
      → t ≡ u
  unfolding replace_from
  replace_from-blind cursor output t u [] same size h k =
      let (s, e, h') = >>=-eq-some (get a cursor (length a)) _ h in
      let (r, e', k') = >>=-eq-some (get b cursor (length b)) _ k in
      let left = get→Slice a cursor (length a) s e in
      let right = get→Slice b cursor (length b) r e' in
      let equal : s ≡ r =
        left.is
        ∙ ap (λ n. take (n - cursor) (drop cursor a)) size
        ∙ ap (take (length b - cursor)) same
        ∙ sym right.is in
      cc (h', k', equal)
  replace_from-blind cursor output t u (f ∷ fs) same size h k =
      let (gap, e, h') = >>=-eq-some (get a cursor f.span.start) _ h in
      let (raw, _, h'') = >>=-eq-some (get a f.span.start f.span.end) _ h' in
      let (gap', e', k') = >>=-eq-some (get b cursor f.span.start) _ k in
      let (raw', _, k'') = >>=-eq-some (get b f.span.start f.span.end) _ k' in
      let equal : gap ≡ gap' =
        (get→Slice a cursor f.span.start gap e).is
        ∙ same.0
        ∙ sym (get→Slice b cursor f.span.start gap' e').is in
      let written : (output ++ gap') ++ write_replacement outside mode none raw' f
          ≡ (output ++ gap) ++ write_replacement outside mode none raw f =
        λ i. (output ++ sym equal i) ++ blind raw' raw f i in
      replace_from-blind f.span.end ((output ++ gap) ++ write_replacement outside mode none raw f) t
        u fs same.1 size h''
        (subst (λ o. replace_from outside mode none b f.span.end o fs ≡ some u) written k'')

-- The modes that write nothing but the kind of a secret.
pub data IsLabelling : RedactionMode → Type 0 where
  by_schema : IsLabelling schema_only
  by_placeholder : IsLabelling placeholder

IsLabelling-blind :
    {mode : RedactionMode} (outside : Outside) (x y : Text) (f : Finding)
    → IsLabelling mode
    → write_replacement outside mode none x f ≡ write_replacement outside mode none y f
unfolding write_replacement
IsLabelling-blind outside x y f by_schema = refl
IsLabelling-blind outside x y f by_placeholder = refl

-- `redact` in a labelling mode is the loop.
IsLabelling-redact :
    {mode : RedactionMode} (outside : Outside) (input : Text) (fs : List Finding)
    → IsLabelling mode
    → redact_findings outside mode input fs
      ≡ finish fs (replace_from outside mode none input 0 [] fs)
unfolding redact_findings
IsLabelling-redact outside input [] by_schema = refl
IsLabelling-redact outside input (f ∷ fs) by_schema = refl
IsLabelling-redact outside input [] by_placeholder = refl
IsLabelling-redact outside input (f ∷ fs) by_placeholder = refl

finish-ok :
    (fs : List Finding) (o : Option Text) (out : RedactionOutput)
    → finish fs o ≡ ok out
    → (o ≡ some out.text) × (out.findings ≡ fs)
finish-ok fs none out h = cc
finish-ok fs (some t) out h = (cc h, cc h)

module _ (outside : Outside) (detect : Text → List Finding) where
  -- In a mode that writes labels (schema only, or placeholder), two texts of one length with the
  -- same findings, which agree outside of them, have the same redacted text where both are
  -- redacted: the redacted text says nothing of what stands in the findings.
  pub redact-blind :
      {mode : RedactionMode} (a b : Text) (x y : RedactionOutput)
      → IsLabelling mode
      → detect a ≡ detect b
      → length a ≡ length b
      → SameOutside 0 (detect a) a b
      → redact outside detect a mode ≡ ok x
      → redact outside detect b mode ≡ ok y
      → x.text ≡ y.text
  unfolding redact
  redact-blind {mode} a b x y m found size same h k =
      let h' = finish-ok (detect a) _ x (sym (IsLabelling-redact outside a (detect a) m) ∙ h) in
      let k' = finish-ok (detect b) _ y (sym (IsLabelling-redact outside b (detect b) m) ∙ k) in
      replace_from-blind outside mode a b (λ v w f. IsLabelling-blind outside v w f m) 0 [] x.text
        y.text (detect a) same size h'.0
        (subst (λ fs. replace_from outside mode none b 0 [] fs ≡ some y.text) (sym found) k'.0)

  -- In a mode that writes labels, if the findings are ascending, free of overlaps and cut out of
  -- the text between characters, redaction returns; it returns the findings as they were, and the
  -- text outside the findings in its order with the replacement of each finding in its place.
  pub redact-total :
      {mode : RedactionMode} (input : Text)
      → IsLabelling mode
      → IsRun (detect input)
      → All (InText input) (detect input)
      → (out : RedactionOutput) × (redact outside detect input mode ≡ ok out)
        × (out.findings ≡ detect input)
        × Woven (write_replacement outside mode none) 0 (detect input) input out.text
  unfolding redact
  redact-total {mode} input m run inside =
      let (text, e) =
        replace_from_total outside mode none input 0 [] (detect input) (omega arith)
          (boundary_start input) (All-map _ _ (λ f i. omega arith) (detect input) inside) run
          inside in
      let (w, same, woven) =
        replace_from-Woven outside mode none input 0 [] text (detect input) e in
      (
        record { text = text; findings = detect input },
        IsLabelling-redact outside input (detect input) m ∙ ap (finish (detect input)) e,
        refl,
        subst (Woven _ 0 (detect input) input) (sym same) woven,
      )

  -- In the blocking mode a text without findings is returned as it is, and every other text is the
  -- error `Blocked`.
  pub redact-block :
      (input : Text)
      → ((detect input ≡ [])
          × (redact outside detect input block ≡ ok (record { text = input; findings = [] })))
        ⊎ ((detect input ≢ []) × (redact outside detect input block ≡ err blocked))
  unfolding redact redact_findings replace_from
  redact-block input = go (detect input) refl
    where
      go :
          (fs : List Finding)
          → detect input ≡ fs
          → ((detect input ≡ [])
              × (redact outside detect input block ≡ ok (record { text = input; findings = [] })))
            ⊎ ((detect input ≢ []) × (redact outside detect input block ≡ err blocked))
      go [] e = inl (
        e,
        rw (
          e,
          get-some input 0 (length input) (omega arith) (boundary_start input) (boundary_end input),
          take_all (length input - 0) input (omega arith),
        ),
      )
      go (f ∷ fs) e = inr (λ n. cc, rw e)
