-- ===== src/Exec/Redactor/Stream.antt =====
-- `push` and `finish` against the tokenizer: a push moves a chunk from the stream to come into the
-- redactor, and does not change the outcome of the whole.
use mathlib.Core.List.{append_assoc}
use blindfold.Prelude.{
  ℕ, ◌+◌, ◌≤◌, ◌<◌, min, ◌≡◌, refl, sym, ap, ◌∙◌, ◌⊎◌, inl, inr, Bool, true, false, Option, some,
  [], ◌++◌, arith, length, drop, drop_all, All, All-map,
}
use blindfold.Exec.Redactor.{
  Bytes, u64_max, saturating_add, StreamingRedactor, Progress, RedactionSummary, process_before,
  process, push, finish,
}
use blindfold.Exec.Redactor.Tokens.{tokenize, HasNoEmpty}
use blindfold.Exec.Redactor.Loop.{Sink, emit_all, sink, Window, rounds-Ends}

-- The outcome of a redactor if the stream goes on with `more` and ends.
abbrev pub final : StreamingRedactor → Bytes → Sink
final r more =
    emit_all (tokenize r.patterns 0 (r.pending ++ more))
      (record { out = r.output; count = r.redactions })

-- The held-back bytes cover every pattern.
pub record IsReady (r : StreamingRedactor) : Type 0 where
  pub nonempty : HasNoEmpty r.patterns
  pub covers : All (λ q. length q ≤ r.maximum_pattern_length) r.patterns
  pub positive : 0 < r.maximum_pattern_length

pub record Pushed (r : StreamingRedactor) (chunk : Bytes) (result : Option StreamingRedactor)
    : Type 0 where
  pub next : StreamingRedactor
  pub returned : result ≡ some next
  pub ready : IsReady next
  pub patterns : next.patterns ≡ r.patterns
  pub read : next.bytes_read ≡ saturating_add r.bytes_read (min (length chunk) u64_max)
  pub same : (more : Bytes) → final next more ≡ final r (chunk ++ more)

-- A pass over the pending bytes, with what it leaves pending and its place in the stream.
record Passed (r : StreamingRedactor) (before : ℕ) (result : Option StreamingRedactor)
    : Type 0 where
  last : Progress
  returned :
      result
      ≡ some (record r {
        pending = drop last.cursor r.pending;
        output = last.out;
        redactions = last.count;
      })
  passed : before ≤ last.cursor
  same :
      (more : Bytes)
      → (more ≡ []) ⊎ (0 < before → All (λ q. length q + before ≤ length r.pending + 1) r.patterns)
      → emit_all (tokenize r.patterns 0 (drop last.cursor r.pending ++ more)) (sink last)
        ≡ final r more

process-Passed :
    (at_end : Bool) (r : StreamingRedactor)
    → HasNoEmpty r.patterns
    → process_before at_end r ≤ length r.pending
    → Passed r (process_before at_end r) (process at_end r)
unfolding process
process-Passed at_end r nonempty fits =
    let before = process_before at_end r in
    let start : Progress = record { cursor = 0; out = r.output; count = r.redactions } in
    let run = λ (more : Bytes) (w : Window r.patterns r.pending more before).
      rounds-Ends r.patterns r.pending more before before start nonempty w fits (omega arith)
        (omega arith) in
    let first = run [] (inl refl) in
    record {
      last = first.last;
      returned = rw first.returned;
      passed = first.passed;
      same = λ more w.
          let other = run more w in
          let agree : first.last ≡ other.last = cc (first.returned, other.returned) in
          rw agree other.same;
    }

process_before_fits :
    (at_end : Bool) (r : StreamingRedactor) → process_before at_end r ≤ length r.pending
unfolding process_before
process_before_fits at_end r = ground arith

pub push-Pushed :
    (r : StreamingRedactor) (chunk : Bytes) → IsReady r → Pushed r chunk (push r chunk)
unfolding push
push-Pushed r chunk ready =
    let received : StreamingRedactor = record r {
      bytes_read = saturating_add r.bytes_read (min (length chunk) u64_max);
      pending = r.pending ++ chunk;
    } in
    let pass = process-Passed false received ready.nonempty (process_before_fits false received) in
    let next : StreamingRedactor = record received {
      pending = drop pass.last.cursor received.pending;
      output = pass.last.out;
      redactions = pass.last.count;
    } in
    record {
      next = next;
      returned = pass.returned;
      ready = record {
        nonempty = ready.nonempty;
        covers = ready.covers;
        positive = ready.positive;
      };
      patterns = refl;
      read = refl;
      same = λ more.
          pass.same more (
            inr (
              unfold process_before in
              λ pos. All-map _ _ (λ q le. omega arith) r.patterns ready.covers))
          ∙ ap
              (λ v.
                emit_all (tokenize r.patterns 0 v)
                  (record { out = r.output; count = r.redactions }))
              (append_assoc r.pending chunk more);
    }

pub record Finished (r : StreamingRedactor) (result : Option RedactionSummary) : Type 0 where
  pub end : Sink
  pub same : end ≡ final r []
  pub returned :
      result
      ≡ some (record {
        output = end.out.bytes;
        bytes_read = r.bytes_read;
        redactions = end.count;
        truncated = end.out.truncated;
      })

pub finish-Finished : (r : StreamingRedactor) → IsReady r → Finished r (finish r)
unfolding finish process_before tokenize
finish-Finished r ready =
    let pass = process-Passed true r ready.nonempty (process_before_fits true r) in
    let nothing : drop pass.last.cursor r.pending ≡ [] =
      drop_all pass.last.cursor r.pending pass.passed in
    record {
      end = sink pass.last;
      same =
          sym (ap (λ v. emit_all (tokenize r.patterns 0 (v ++ [])) (sink pass.last)) nothing)
          ∙ pass.same [] (inl refl);
      returned = rw pass.returned;
    }
