-- ===== src/Exec/Capture.antt =====
-- crates/blindfold-exec/src/lib.rs: the captured streams of a child, redacted as they are read.
pub mod Laws
use blindfold.Prelude.{ℕ, Option, none, some, List, [], ◌∷◌, ◌>>=◌}
use blindfold.Prelude.Sorting.{UnstableSort}
use blindfold.Exec.Redactor.{
  Bytes, longer_first, StreamingRedactor, RedactionSummary, new, push, finish,
}

-- What one `read` of the stream returns; no bytes at all are the end of the stream.
pub data Read : Type 0 where
  bytes : Bytes → Read
  failure : Read

pub data Capture : Type 0 where
  captured : RedactionSummary → Capture
  read_failed : Capture

abbrev done : StreamingRedactor → Option Capture
done r = do s ← finish r; some (captured s)

-- The loop of `capture_stream`, over the reads to come; `none` if a redactor does not return.
unfoldable pub capture_from : StreamingRedactor → List Read → Option Capture
capture_from r [] = done r
capture_from r (failure ∷ reads) = some read_failed
capture_from r (bytes [] ∷ reads) = done r
capture_from r (bytes (b ∷ bs) ∷ reads) = do s ← push r (b ∷ bs); capture_from s reads

module _ (by_length : UnstableSort longer_first) where
  unfoldable pub capture_stream : List Bytes → ℕ → List Read → Option Capture
  unfolding capture_from
  capture_stream patterns limit reads = capture_from (new by_length patterns limit) reads
