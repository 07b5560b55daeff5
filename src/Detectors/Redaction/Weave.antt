-- ===== src/Detectors/Redaction/Weave.antt =====
-- What the loop of `redact` does to the text: the spans are replaced, everything between stays.
use mathlib.Core.List.{append_assoc}
use blindfold.Prelude.{
  ℕ, ◌+◌, ◌-◌, ◌≤◌, ◌≡◌, sym, ap, subst, ◌∙◌, Option, some, List, [], ◌∷◌, ◌++◌, arith, length,
  take, drop, drop-drop, take_all, take-append-drop, length-take, length-drop, >>=-eq-some,
}
use blindfold.Detectors.Finding.{Finding}
use blindfold.Detectors.Redaction.{
  Text, RedactionMode, Outside, is_char_boundary, get, write_replacement, replace_from,
}

pub record Slice (input : Text) (start end : ℕ) (s : Text) : Type 0 where
  pub ordered : start ≤ end
  pub inside : end ≤ length input
  pub is : s ≡ take (end - start) (drop start input)

pub get→Slice :
    (input : Text) (start end : ℕ) (s : Text)
    → get input start end ≡ some s
    → Slice input start end s
unfolding get is_char_boundary
get→Slice input start end s h = ground arith

-- From `c` on, the text `input` with the findings' spans replaced by `rep` is `output`.
pub data Woven (rep : Text → Finding → Text) : ℕ → List Finding → Text → Text → Type 0 where
  rest : {c : ℕ} {text : Text} → Woven rep c [] text text
  piece :
      {c : ℕ} {fs : List Finding} {input output : Text} (f : Finding) (gap raw : Text)
      → f.span.start ≡ c + length gap
      → f.span.end ≡ f.span.start + length raw
      → Woven rep f.span.end fs input output
      → Woven rep c (f ∷ fs) (gap ++ (raw ++ input)) (gap ++ (rep raw f ++ output))

split_at :
    (input : Text) (c start end : ℕ)
    → c ≤ start
    → start ≤ end
    → end ≤ length input
    → drop c input
      ≡ take (start - c) (drop c input) ++ (take (end - start) (drop start input) ++ drop end input)
split_at input c start end h k l =
    let first : drop (start - c) (drop c input) ≡ drop start input =
      drop-drop (start - c) c input
      ∙ ap (λ n. drop n input) {x = c + (start - c)} {y = start} (omega arith) in
    let second : drop (end - start) (drop start input) ≡ drop end input =
      drop-drop (end - start) start input
      ∙ ap (λ n. drop n input) {x = start + (end - start)} {y = end} (omega arith) in
    sym (take-append-drop (start - c) (drop c input))
    ∙ ap (λ t. take (start - c) (drop c input) ++ t)
        (first
          ∙ sym (take-append-drop (end - start) (drop start input))
          ∙ ap (λ t. take (end - start) (drop start input) ++ t) second)

Slice-length :
    {input : Text} {start end : ℕ} {s : Text} → Slice input start end s → end ≡ start + length s
Slice-length {input} {start} {end} {s} h = rw h.is (
    omega (
      arith,
      h.ordered,
      h.inside,
      length-take (end - start) (drop start input),
      length-drop start input,
    ))

regroup : (a b c d : Text) → ((a ++ b) ++ c) ++ d ≡ a ++ (b ++ (c ++ d))
regroup a b c d = append_assoc (a ++ b) c d ∙ append_assoc a b (c ++ d)

module _ (rep : Text → Finding → Text) (input : Text) where
  Woven-piece :
      (cursor : ℕ) (f : Finding) (fs : List Finding) (gap raw w : Text)
      → Slice input cursor f.span.start gap
      → Slice input f.span.start f.span.end raw
      → Woven rep f.span.end fs (drop f.span.end input) w
      → Woven rep cursor (f ∷ fs) (drop cursor input) (gap ++ (rep raw f ++ w))
  Woven-piece cursor f fs gap raw w before inside woven =
      subst (λ t. Woven rep cursor (f ∷ fs) t (gap ++ (rep raw f ++ w)))
        (rw (before.is, inside.is)
          (sym (
            split_at input cursor f.span.start f.span.end before.ordered inside.ordered
              inside.inside)))
        (Woven.piece f gap raw (Slice-length before) (Slice-length inside) woven)

module _ (outside : Outside) (mode : RedactionMode) (key : Option Text) (input : Text) where
  pub replace_from-Woven :
      (cursor : ℕ) (output text : Text) (fs : List Finding)
      → replace_from outside mode key input cursor output fs ≡ some text
      → (w : Text) × (text ≡ output ++ w)
        × Woven (write_replacement outside mode key) cursor fs (drop cursor input) w
  unfolding replace_from
  replace_from-Woven cursor output text [] h =
      let (s, e, k) = >>=-eq-some (get input cursor (length input)) _ h in
      let slice = get→Slice input cursor (length input) s e in
      let whole : s ≡ drop cursor input =
        slice.is
        ∙ take_all (length input - cursor) (drop cursor input)
            (omega (arith, length-drop cursor input)) in
      (
        s,
        cc k,
        subst (λ t. Woven (write_replacement outside mode key) cursor [] t s) whole Woven.rest,
      )
  replace_from-Woven cursor output text (f ∷ fs) h =
      let (gap, e, h') = >>=-eq-some (get input cursor f.span.start) _ h in
      let (raw, e', h'') = >>=-eq-some (get input f.span.start f.span.end) _ h' in
      let (w, same, woven) =
        replace_from-Woven f.span.end ((output ++ gap) ++ write_replacement outside mode key raw f)
          text fs h'' in
      (
        gap ++ (write_replacement outside mode key raw f ++ w),
        same ∙ regroup output gap (write_replacement outside mode key raw f) w,
        Woven-piece (write_replacement outside mode key) input cursor f fs gap raw w
            (get→Slice input cursor f.span.start gap e)
            (get→Slice input f.span.start f.span.end raw e') woven,
      )
