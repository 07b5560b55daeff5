-- ===== src/Exec/Redactor/Summary.antt =====
-- A new redactor, and the summary that the tokens of a whole stream have.
use mathlib.Core.List.Permᴰ
use mathlib.Core.List.{append-nil, append_assoc}
use blindfold.Prelude.{
  ℕ, zero, suc, ◌≤◌, ◌<◌, min, ◌≡◌, refl, sym, ap, subst, ◌∙◌, inl, inr, some, List, [], ◌∷◌, ◌++◌,
  Memᴰ, arith, true, false, ltb, Option-cases, length, take, All, All-mem, All-perm, All-of_forall,
}
use blindfold.Prelude.Sorting.{UnstableSort, Ascending}
use blindfold.Exec.Redactor.{
  Bytes, redaction, u64_max, saturating_add, longest, longer_first, unwrap_or, RedactionSummary,
  new,
}
use blindfold.Exec.Redactor.Output.{Shows, push_output-Shows}
use blindfold.Exec.Redactor.Match.{dedup-All, All-dedup, dedup-AllPairs, longest-le, longest-none}
use blindfold.Exec.Redactor.Tokens.{
  Token, plain, secret, Redacts, render, secrets, tokenize, HasNoEmpty, Redacts-tokenize,
}
use blindfold.Exec.Redactor.Loop.{Sink, emit, emit_all}
use blindfold.Exec.Redactor.Stream.{IsReady, final}

emit_all-Shows :
    {limit : ℕ} {w : Bytes} (ts : List Token) (s : Sink)
    → Shows s.out limit w
    → Shows (emit_all ts s).out limit (w ++ render ts)
emit_all-Shows {limit} {w} [] s h = subst (Shows s.out limit) (sym (append-nil w)) h
emit_all-Shows {limit} {w} (plain b ∷ ts) s h =
    subst (Shows _ limit) (append_assoc w (b ∷ []) (render ts))
      (emit_all-Shows ts (emit (plain b) s) (push_output-Shows (b ∷ []) h))
emit_all-Shows {limit} {w} (secret p ∷ ts) s h =
    subst (Shows _ limit) (append_assoc w redaction (render ts))
      (emit_all-Shows ts (emit (secret p) s) (push_output-Shows redaction h))

emit_all-count :
    (ts : List Token) (s : Sink)
    → s.count ≤ u64_max
    → (emit_all ts s).count ≡ saturating_add s.count (secrets ts)
emit_all-count [] s h = omega arith
emit_all-count (plain b ∷ ts) s h = emit_all-count ts (emit (plain b) s) h
emit_all-count (secret p ∷ ts) s h =
    omega (arith, emit_all-count ts (emit (secret p) s) (omega arith))

abbrev start_sink : ℕ → Sink
start_sink limit = record {
  out = record { bytes = []; limit = limit; truncated = false };
  count = 0;
}

start_sink-Shows : (limit : ℕ) → Shows (start_sink limit).out limit []
start_sink-Shows zero = record { bound = refl; shown = refl; cut = refl }
start_sink-Shows (suc n) = record { bound = refl; shown = refl; cut = ground arith }

no_read : (n : ℕ) → saturating_add 0 n ≡ min n u64_max
no_read n = omega arith

-- What the summary of a stream has to be.
pub record Summarizes (patterns : List Bytes) (limit : ℕ) (input : Bytes) (s : RedactionSummary)
    : Type 0 where
  pub tokens : List Token
  pub meaning : Redacts patterns input tokens
  pub output : s.output ≡ take limit (render tokens)
  pub truncated : s.truncated ≡ ltb limit (length (render tokens))
  pub redactions : s.redactions ≡ min (secrets tokens) u64_max
  pub bytes_read : s.bytes_read ≡ min (length input) u64_max

-- Two lists with the same members have the same meaning.
Redacts-same :
    {ps qs : List Bytes} {bytes : Bytes} {ts : List Token}
    → All (λ p. Memᴰ p qs) ps
    → ((P : Bytes → Type 0) → All P ps → All P qs)
    → Redacts ps bytes ts
    → Redacts qs bytes ts
Redacts-same listed all Redacts.done = Redacts.done
Redacts-same listed all (Redacts.keep none_fits r) =
    Redacts.keep (all _ none_fits) (Redacts-same listed all r)
Redacts-same listed all (Redacts.hide p m e longest_one r) =
    Redacts.hide p (All-mem _ m listed) e (all _ longest_one) (Redacts-same listed all r)

longest-positive : (ps : List Bytes) (m : ℕ) → HasNoEmpty ps → longest ps ≡ some m → 0 < m
unfolding longest
longest-positive [] m h e = cc
longest-positive (p ∷ ps) m h e = ground (arith, h.0)

covers-longest :
    (ps : List Bytes)
    → HasNoEmpty ps
    → All (λ q. length q ≤ unwrap_or 1 (longest ps)) ps × (0 < unwrap_or 1 (longest ps))
covers-longest ps h = elim (Option-cases (longest ps)) [
  | inl e ↦ rw e (subst (All _) (sym (longest-none ps e)) tt, omega arith)
  | inr (m, e) ↦ rw e (longest-le ps m e, longest-positive ps m h e)
]

module _ (by_length : UnstableSort longer_first) (patterns : List Bytes) (limit : ℕ) where
  abbrev kept : List Bytes
  kept = (new by_length patterns limit).patterns

  All-of-kept : (P : Bytes → Type 0) → All P kept → All P patterns
  unfolding new
  All-of-kept P h = All-perm P (by_length.perm patterns) (All-dedup P (by_length.sort patterns) h)

  All-kept : (P : Bytes → Type 0) → All P patterns → All P kept
  unfolding new
  All-kept P h =
      dedup-All P (by_length.sort patterns) (All-perm P (Permᴰ.symm (by_length.perm patterns)) h)

  kept-Ascending : Ascending longer_first kept
  unfolding new
  kept-Ascending =
      dedup-AllPairs (λ p q. longer_first p q ≡ true) (by_length.sort patterns)
        (by_length.ascending patterns)

  pub new-IsReady : HasNoEmpty patterns → IsReady (new by_length patterns limit)
  new-IsReady h =
      let nonempty = All-kept (λ q. 0 < length q) h in
      unfold new in
      record {
        nonempty = nonempty;
        covers = (covers-longest kept nonempty).0;
        positive = (covers-longest kept nonempty).1;
      }

  -- The summary of the whole stream, by the reference tokenizer.
  pub expected : Bytes → RedactionSummary
  expected input =
      let ts = tokenize kept 0 input in
      record {
        output = take limit (render ts);
        bytes_read = min (length input) u64_max;
        redactions = min (secrets ts) u64_max;
        truncated = ltb limit (length (render ts));
      }

  pub expected-Summarizes :
      (input : Bytes) → HasNoEmpty patterns → Summarizes patterns limit input (expected input)
  unfolding expected
  expected-Summarizes input h = record {
    tokens = tokenize kept 0 input;
    meaning =
        Redacts-same (All-kept _ (All-of_forall _ patterns (λ p m. m))) All-of-kept
          (Redacts-tokenize kept input (All-kept _ h) kept-Ascending);
    output = refl;
    truncated = refl;
    redactions = refl;
    bytes_read = refl;
  }

  -- What a new redactor has for the outcome of a stream.
  pub expected-final :
      (input : Bytes) (end : Sink)
      → end ≡ final (new by_length patterns limit) input
      → record {
        output = end.out.bytes;
        bytes_read = saturating_add 0 (length input);
        redactions = end.count;
        truncated = end.out.truncated;
      }
        ≡ expected input
  unfolding expected
  expected-final input end e =
      let ts = tokenize kept 0 input in
      let start = start_sink limit in
      let shows = emit_all-Shows ts start (start_sink-Shows limit) in
      let at_end : end ≡ emit_all ts start = e ∙ unfold new in refl in
      λ i. record {
        output = (ap (λ (s : Sink). s.out.bytes) at_end ∙ shows.shown) i;
        bytes_read = (no_read (length input)) i;
        redactions =
            (ap (λ (s : Sink). s.count) at_end
                ∙ emit_all-count ts start (omega arith)
                ∙ no_read (secrets ts))
              i;
        truncated = (ap (λ (s : Sink). s.out.truncated) at_end ∙ shows.cut) i;
      }
