-- ===== src/Exec/Capture/Laws.antt =====
-- Captured output: nothing depends on how the stream was cut into reads.
use blindfold.Prelude.{
  ℕ, ◌≤◌, min, ◌≡◌, refl, sym, ap, ◌∙◌, Option, none, some, List, [], ◌∷◌, ◌++◌, arith, length,
  length-append, ◌>>=◌,
}
use blindfold.Prelude.Sorting.{UnstableSort}
use blindfold.Exec.Redactor.{
  Bytes, longer_first, u64_max, saturating_add, StreamingRedactor, RedactionSummary, new, finish,
}
use blindfold.Exec.Redactor.Tokens.{HasNoEmpty}
use blindfold.Exec.Redactor.Loop.{Sink}
use blindfold.Exec.Redactor.Stream.{IsReady, final, push-Pushed, finish-Finished}
use blindfold.Exec.Redactor.Summary.{
  Summarizes, new-IsReady, expected, expected-Summarizes, expected-final,
}
use blindfold.Exec.Capture.{
  Read, bytes, failure, Capture, captured, read_failed, capture_from, capture_stream,
}

-- The bytes of the stream up to its end, or none if a read fails before it.
abbrev pub received : List Read → Option Bytes
received [] = some []
received (failure ∷ reads) = none
received (bytes [] ∷ reads) = some []
received (bytes (b ∷ bs) ∷ reads) = elim (received reads) [
  | none ↦ none
  | some more ↦ some ((b ∷ bs) ++ more)
]

abbrev wrap : ℕ → Sink → RedactionSummary
wrap read end = record {
  output = end.out.bytes;
  bytes_read = read;
  redactions = end.count;
  truncated = end.out.truncated;
}

abbrev outcome_from : StreamingRedactor → Option Bytes → Capture
outcome_from r none = read_failed
outcome_from r (some input) =
    captured (wrap (saturating_add r.bytes_read (length input)) (final r input))

capture_from-done :
    (r : StreamingRedactor)
    → IsReady r
    → r.bytes_read ≤ u64_max
    → (do s ← finish r; some (captured s)) ≡ some (outcome_from r (some []))
capture_from-done r ready small =
    let f = finish-Finished r ready in
    let read : r.bytes_read ≡ saturating_add r.bytes_read 0 = omega arith in
    rw (f.returned, f.same) (ap (λ n. some (captured (wrap n (final r [])))) read)

abbrev after : Bytes → Option Bytes → Option Bytes
after chunk none = none
after chunk (some more) = some (chunk ++ more)

-- Pushing a chunk and going on is going on with the chunk in front.
outcome_from-push :
    (r next : StreamingRedactor) (chunk : Bytes) (rest : Option Bytes)
    → r.bytes_read ≤ u64_max
    → next.bytes_read ≡ saturating_add r.bytes_read (min (length chunk) u64_max)
    → ((more : Bytes) → final next more ≡ final r (chunk ++ more))
    → outcome_from next rest ≡ outcome_from r (after chunk rest)
outcome_from-push r next chunk none small read same = refl
outcome_from-push r next chunk (some more) small read same =
    let total : saturating_add next.bytes_read (length more)
        ≡ saturating_add r.bytes_read (length (chunk ++ more)) =
      omega (arith, read, length-append chunk more) in
    λ i. captured (wrap (total i) (same more i))

capture_from-outcome :
    (r : StreamingRedactor) (reads : List Read)
    → IsReady r
    → r.bytes_read ≤ u64_max
    → capture_from r reads ≡ some (outcome_from r (received reads))
unfolding capture_from
capture_from-outcome r [] ready small = capture_from-done r ready small
capture_from-outcome r (failure ∷ reads) ready small = refl
capture_from-outcome r (bytes [] ∷ reads) ready small = capture_from-done r ready small
capture_from-outcome r (bytes (b ∷ bs) ∷ reads) ready small =
    let p = push-Pushed r (b ∷ bs) ready in
    let rest = capture_from-outcome p.next reads p.ready (omega (arith, p.read)) in
    rw p.returned
      (rest ∙ ap some (outcome_from-push r p.next (b ∷ bs) (received reads) small p.read p.same))

module _ (by_length : UnstableSort longer_first) (patterns : List Bytes) (limit : ℕ)
    (nonempty : HasNoEmpty patterns) where
  abbrev told : Option Bytes → Capture
  told none = read_failed
  told (some input) = captured (expected by_length patterns limit input)

  outcome_from-new : (o : Option Bytes) → outcome_from (new by_length patterns limit) o ≡ told o
  unfolding new
  outcome_from-new none = refl
  outcome_from-new (some input) = ap captured (
      expected-final by_length patterns limit input (final (new by_length patterns limit) input)
        refl)

  capture_stream-told :
      (reads : List Read)
      → capture_stream by_length patterns limit reads ≡ some (told (received reads))
  unfolding capture_stream
  capture_stream-told reads =
      capture_from-outcome (new by_length patterns limit) reads
        (new-IsReady by_length patterns limit nonempty) (unfold new in omega arith)
      ∙ ap some (outcome_from-new (received reads))

  -- If no pattern is empty and no read fails before the end of the stream, then `capture_stream`
  -- returns a summary, and the summary is that of the whole stream cut into tokens: from the left,
  -- the longest pattern at a place is one secret, another byte is kept; the output is the tokens
  -- with each secret replaced, cut at the limit; the counters are those of the tokens and the
  -- bytes, saturated at 64 bits.
  pub capture_stream-Summarizes :
      (reads : List Read) (input : Bytes)
      → received reads ≡ some input
      → (s : RedactionSummary) × (capture_stream by_length patterns limit reads ≡ some (captured s))
        × Summarizes patterns limit input s
  capture_stream-Summarizes reads input e = (
    expected by_length patterns limit input,
    capture_stream-told reads ∙ ap (λ o. some (told o)) e,
    expected-Summarizes by_length patterns limit input nonempty,
  )

  -- If no pattern is empty and a read fails before the end of the stream, `capture_stream` returns
  -- the failure and no output.
  pub capture_stream-failed :
      (reads : List Read)
      → received reads ≡ none
      → capture_stream by_length patterns limit reads ≡ some read_failed
  capture_stream-failed reads e = capture_stream-told reads ∙ ap (λ o. some (told o)) e

  -- If no pattern is empty, two sequences of reads that deliver the same bytes, or that both fail,
  -- have the same result: it does not matter how the stream is cut into reads.
  pub capture_stream_chunks :
      (reads others : List Read)
      → received reads ≡ received others
      → capture_stream by_length patterns limit reads
        ≡ capture_stream by_length patterns limit others
  capture_stream_chunks reads others e =
      capture_stream-told reads ∙ ap (λ o. some (told o)) e ∙ sym (capture_stream-told others)
