-- ===== src/Tests/Capturing.antt =====
-- A stream in which one pattern starts another, cut in the middle of a secret.
use blindfold.Prelude.{◌≡◌, refl, arith, true, false, some, List, [], ◌∷◌, codes}
use blindfold.Prelude.Sorting.{UnstableSort, insertion_sort, sort_by}
use blindfold.Exec.Redactor.{Bytes, longer_first, RedactionSummary, new, push, finish}
use blindfold.Exec.Redactor.Summary.{Summarizes}
use blindfold.Exec.Capture.{Read, bytes, failure, captured, read_failed, capture_stream}
use blindfold.Exec.Capture.Laws.{
  capture_stream-Summarizes, capture_stream-failed, capture_stream_chunks,
}

longer_first-total : (p q : Bytes) → longer_first p q ≡ false → longer_first q p ≡ true
longer_first-total p q h = ground arith

longer_first_trans :
    (p q r : Bytes) → longer_first p q ≡ true → longer_first q r ≡ true → longer_first p r ≡ true
longer_first_trans p q r h k = ground arith

abbrev length_sort : UnstableSort longer_first
length_sort =
    insertion_sort longer_first (record { total = longer_first-total; trans = longer_first_trans })

abbrev sample_patterns : List Bytes
sample_patterns = codes "key" ∷ codes "keyring" ∷ codes "key" ∷ []

abbrev sample_reads : List Read
sample_reads = bytes (codes "a keyri") ∷ bytes (codes "ng, a key") ∷ []

abbrev same_reads : List Read
same_reads = bytes (codes "a keyring, a k") ∷ bytes (codes "ey") ∷ bytes [] ∷ failure ∷ []

abbrev cut_reads : List Read
cut_reads = bytes (codes "a ke") ∷ failure ∷ []

abbrev sample_summary : RedactionSummary
sample_summary = record {
  output = codes "a [REDACTED], a [REDA";
  bytes_read = 16;
  redactions = 2;
  truncated = true;
}

capture_run :
    capture_stream length_sort sample_patterns 21 sample_reads ≡ some (captured sample_summary)
unfolding capture_stream push new sort_by finish
capture_run = refl

capture_stream-Summarizes_example :
    (s : RedactionSummary) × (capture_stream length_sort sample_patterns 21 sample_reads
      ≡ some (captured s))
    × Summarizes sample_patterns 21 (codes "a keyring, a key") s
capture_stream-Summarizes_example =
    capture_stream-Summarizes length_sort sample_patterns 21
      (omega arith, (omega arith, (omega arith, tt))) sample_reads (codes "a keyring, a key") refl

capture_stream-failed_example :
    capture_stream length_sort sample_patterns 21 cut_reads ≡ some read_failed
capture_stream-failed_example =
    capture_stream-failed length_sort sample_patterns 21
      (omega arith, (omega arith, (omega arith, tt))) cut_reads refl

capture_stream_chunks_example :
    capture_stream length_sort sample_patterns 21 sample_reads
    ≡ capture_stream length_sort sample_patterns 21 same_reads
capture_stream_chunks_example =
    capture_stream_chunks length_sort sample_patterns 21
      (omega arith, (omega arith, (omega arith, tt))) sample_reads same_reads refl
