-- ===== src/Exec/Redactor/Loop.antt =====
-- The loop of `process` against the tokenizer: what is written and what is still to be written
-- together stay the same, whatever the stream goes on with.
use mathlib.Core.List.{append-nil}
use blindfold.Prelude.{
  ℕ, zero, suc, ◌+◌, ◌≤◌, ◌<◌, ◌≡◌, refl, sym, ap, ◌∙◌, ◌⊎◌, inl, inr, false, Option, none, some,
  List, [], ◌∷◌, ◌++◌, arith, ltb, ltb→lt, Bool-cases, Option-cases, length, drop, length-append,
  length-drop, drop-drop, drop-append, All, All-map, All-mem,
}
use blindfold.Exec.Redactor.{
  Bytes, redaction, saturating_add, BoundedOutput, push_output, match_length, Progress, round,
  rounds, replace, copy,
}
use blindfold.Exec.Redactor.Match.{starts_with-length, match_length→Matches, match_length-append}
use blindfold.Exec.Redactor.Tokens.{
  Token, plain, secret, tokenize, tokenize-plain, tokenize-secret, HasNoEmpty,
}

pub record Sink : Type 0 where
  pub out : BoundedOutput
  pub count : ℕ

abbrev pub emit : Token → Sink → Sink
emit (plain b) s = record s { out = push_output s.out (b ∷ []) }
emit (secret p) s = record { out = push_output s.out redaction; count = saturating_add s.count 1 }

abbrev pub emit_all : List Token → Sink → Sink
emit_all [] s = s
emit_all (t ∷ ts) s = emit_all ts (emit t s)

abbrev pub sink : Progress → Sink
sink p = record { out = p.out; count = p.count }

module _ (patterns : List Bytes) (pending more : Bytes) where
  -- The outcome of a run from here to the end of the stream.
  abbrev pub outcome : Progress → Sink
  outcome p = emit_all (tokenize patterns 0 (drop p.cursor pending ++ more)) (sink p)

  -- What the bytes in view say of a match holds for the whole stream.
  abbrev Agrees : Progress → Type 0
  Agrees p =
      match_length patterns (drop p.cursor pending ++ more)
      ≡ match_length patterns (drop p.cursor pending)

  outcome-copy :
      (p : Progress) (b : ℕ) (rest : Bytes)
      → drop p.cursor pending ≡ b ∷ rest
      → Agrees p
      → match_length patterns (drop p.cursor pending) ≡ none
      → outcome (copy pending p) ≡ outcome p
  outcome-copy p b rest view agrees e =
      let next : drop (p.cursor + 1) pending ≡ rest =
        sym (drop-drop 1 p.cursor pending) ∙ ap (drop 1) view in
      let here : match_length patterns ((b ∷ rest) ++ more) ≡ none =
        ap (λ v. match_length patterns (v ++ more)) (sym view) ∙ agrees ∙ e in
      rw (next, view, tokenize-plain patterns b (rest ++ more) here)

  outcome-replace :
      (p : Progress) (n : ℕ)
      → 0 < n
      → n ≤ length (drop p.cursor pending)
      → Agrees p
      → match_length patterns (drop p.cursor pending) ≡ some n
      → outcome (replace p n) ≡ outcome p
  outcome-replace p n pos fits agrees e =
      let next : drop n (drop p.cursor pending ++ more) ≡ drop (p.cursor + n) pending ++ more =
        drop-append n (drop p.cursor pending) more fits
        ∙ ap (λ v. v ++ more) (drop-drop n p.cursor pending) in
      let wide : n ≤ length (drop p.cursor pending ++ more) =
        omega (arith, length-append (drop p.cursor pending) more) in
      rw (tokenize-secret patterns n (drop p.cursor pending ++ more) pos wide (agrees ∙ e), next)

  -- In a round the cursor moves, stays in bounds, and the outcome is the same.
  record Keeps (p q : Progress) : Type 0 where
    moves : p.cursor < q.cursor
    bounded : q.cursor ≤ length pending
    same : outcome q ≡ outcome p

  head_of_view :
      (p : Progress)
      → p.cursor < length pending
      → (b : ℕ) × (rest : Bytes) × (drop p.cursor pending ≡ b ∷ rest)
  head_of_view p h = go (drop p.cursor pending) refl
    where
      go :
          (v : Bytes)
          → drop p.cursor pending ≡ v
          → (b : ℕ) × (rest : Bytes) × (drop p.cursor pending ≡ b ∷ rest)
      go [] e = absurd (omega (arith, length-drop p.cursor pending, ap (λ (l : Bytes). length l) e))
      go (b ∷ rest) e = (b, rest, e)

  round-Keeps :
      (p : Progress)
      → HasNoEmpty patterns
      → p.cursor < length pending
      → Agrees p
      → Keeps p (round patterns pending p)
  round-Keeps p nonempty h agrees =
      elim (Option-cases (match_length patterns (drop p.cursor pending))) [
        | inl e ↦
            let (b, rest, view) = head_of_view p h in
            let is_copy : round patterns pending p ≡ copy pending p =
              unfold round in rw (e, round) in
            rw is_copy (record {
              moves = omega arith;
              bounded = omega arith;
              same = outcome-copy p b rest view agrees e;
            })
        | inr (n, e) ↦
            let m = match_length→Matches patterns (drop p.cursor pending) n e in
            let fits : n ≤ length (drop p.cursor pending) =
              omega
                (arith, starts_with-length (drop p.cursor pending) m.pattern m.starts, m.size) in
            let positive : 0 < n = omega (arith, All-mem _ m.listed nonempty, m.size) in
            let is_replace : round patterns pending p ≡ replace p n =
              unfold round in rw (e, round) in
            rw is_replace (record {
              moves = omega arith;
              bounded = omega (arith, length-drop p.cursor pending);
              same = outcome-replace p n positive fits agrees e;
            })
      ]

  -- Nothing follows, or every pattern fits into what is in view from before the end of the loop.
  abbrev pub Window : ℕ → Type 0
  Window before =
      (more ≡ []) ⊎ (0 < before → All (λ q. length q + before ≤ length pending + 1) patterns)

  Window-Agrees : (before : ℕ) (p : Progress) → Window before → p.cursor < before → Agrees p
  Window-Agrees before p (inl e) h = rw (e, append-nil)
  Window-Agrees before p (inr w) h =
      match_length-append patterns (drop p.cursor pending) more (
        All-map _ _ (λ q le. omega (arith, length-drop p.cursor pending)) patterns
          (w (omega arith)))

  pub record Ends (before : ℕ) (p : Progress) (result : Option Progress) : Type 0 where
    pub last : Progress
    pub returned : result ≡ some last
    pub passed : before ≤ last.cursor
    pub bounded : last.cursor ≤ length pending
    pub same : outcome last ≡ outcome p

  -- Enough rounds end the loop by its test.
  pub rounds-Ends :
      (fuel before : ℕ) (p : Progress)
      → HasNoEmpty patterns
      → Window before
      → before ≤ length pending
      → p.cursor ≤ length pending
      → before ≤ p.cursor + fuel
      → Ends before p (rounds fuel patterns pending before p)
  unfolding rounds
  rounds-Ends zero before p nonempty w fits inside enough =
      let stop : ltb p.cursor before ≡ false = ground arith in
      rw stop
        (record { last = p; returned = refl; passed = omega arith; bounded = inside; same = refl })
  rounds-Ends (suc fuel) before p nonempty w fits inside enough =
      elim (Bool-cases (ltb p.cursor before)) [
        | inl go ↦
            let below = ltb→lt p.cursor before go in
            let next = round patterns pending p in
            let k = round-Keeps p nonempty (omega arith) (Window-Agrees before p w below) in
            let r =
              rounds-Ends fuel before next nonempty w fits k.bounded (omega (arith, k.moves)) in
            rw go (record {
              last = r.last;
              returned = r.returned;
              passed = r.passed;
              bounded = r.bounded;
              same = r.same ∙ k.same;
            })
        | inr stop ↦ rw stop (record {
          last = p;
          returned = refl;
          passed = ground arith;
          bounded = inside;
          same = refl;
        })
      ]
