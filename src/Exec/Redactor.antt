-- ===== src/Exec/Redactor.antt =====
-- crates/blindfold-exec/src/redactor.rs: the redactor of captured output, which sees the stream in
-- chunks and holds back what may still turn out to be part of a secret.
pub mod Output
pub mod Match
pub mod Tokens
pub mod Loop
pub mod Stream
pub mod Summary
use Prim.Native.Char.{code}
use Prim.Native.String.{String}
use blindfold.Prelude.{
  ℕ, zero, suc, ◌+◌, ◌-◌, ◌^◌, min, max, Bool, true, false, ◌&&◌, ◌||◌, Option, none, some, List,
  [], ◌∷◌, ◌++◌, map, ltb, leb, ◌==◌, if◌then◌else◌, length, take, drop, codes, bytes_eq,
}
use blindfold.Prelude.Sorting.{UnstableSort}

abbrev pub Bytes : Type 0
Bytes = List ℕ

abbrev pub redaction : Bytes
redaction = codes "[REDACTED]"

abbrev pub u64_max : ℕ
u64_max = 2 ^ 64 - 1

abbrev pub saturating_add : ℕ → ℕ → ℕ
saturating_add a b = min (a + b) u64_max

pub record BoundedOutput : Type 0 where
  pub bytes : Bytes
  pub limit : ℕ
  pub truncated : Bool

unfoldable pub push_output : BoundedOutput → Bytes → BoundedOutput
push_output out bytes =
    let available = out.limit - length out.bytes in
    let retained = min available (length bytes) in
    record out {
      bytes = out.bytes ++ take retained bytes;
      truncated = out.truncated || ltb retained (length bytes);
    }

-- `bytes.starts_with(pattern)`
unfoldable pub starts_with : Bytes → Bytes → Bool
starts_with bytes [] = true
starts_with [] (p ∷ pattern) = false
starts_with (b ∷ bytes) (p ∷ pattern) = b == p && starts_with bytes pattern

-- `find` of the first pattern that fits, and its length
unfoldable pub match_length : List Bytes → Bytes → Option ℕ
unfolding starts_with
match_length [] bytes = none
match_length (p ∷ patterns) bytes =
    if starts_with bytes p then some (length p) else match_length patterns bytes

-- `Vec::dedup`: of equal neighbours the first stays
unfoldable pub dedup_after : Bytes → List Bytes → List Bytes
unfolding bytes_eq
dedup_after last [] = []
dedup_after last (p ∷ patterns) =
    let same = dedup_after last patterns in
    let new = p ∷ dedup_after p patterns in if bytes_eq p last then same else new

unfoldable pub dedup : List Bytes → List Bytes
unfolding dedup_after
dedup [] = []
dedup (p ∷ patterns) = p ∷ dedup_after p patterns

abbrev or_length : ℕ → Option ℕ → ℕ
or_length n none = n
or_length n (some m) = max n m

-- `patterns.iter().map(Vec::len).max()`
unfoldable pub longest : List Bytes → Option ℕ
longest [] = none
longest (p ∷ patterns) = some (or_length (length p) (longest patterns))

abbrev pub unwrap_or : ℕ → Option ℕ → ℕ
unwrap_or d none = d
unwrap_or d (some n) = n

pub record StreamingRedactor : Type 0 where
  pub patterns : List Bytes
  pub maximum_pattern_length : ℕ
  pub pending : Bytes
  pub output : BoundedOutput
  pub bytes_read : ℕ
  pub redactions : ℕ

-- `sort_unstable_by_key(|pattern| Reverse(pattern.len()))`
abbrev pub longer_first : Bytes → Bytes → Bool
longer_first p q = leb (length q) (length p)

unfoldable pub new : UnstableSort longer_first → List Bytes → ℕ → StreamingRedactor
unfolding dedup longest
new by_length patterns output_limit =
    let kept = dedup (by_length.sort patterns) in
    record {
      patterns = kept;
      maximum_pattern_length = unwrap_or 1 (longest kept);
      pending = [];
      output = record { bytes = []; limit = output_limit; truncated = false };
      bytes_read = 0;
      redactions = 0;
    }

-- The variables of the loop in `process`.
pub record Progress : Type 0 where
  pub cursor : ℕ
  pub out : BoundedOutput
  pub count : ℕ

abbrev replace : Progress → ℕ → Progress
replace p n = record {
  cursor = p.cursor + n;
  out = push_output p.out redaction;
  count = saturating_add p.count 1;
}

abbrev copy : Bytes → Progress → Progress
copy pending p = record {
  cursor = p.cursor + 1;
  out = push_output p.out (take 1 (drop p.cursor pending));
  count = p.count;
}

-- One round: a secret is replaced whole, another byte is copied.
unfoldable pub round : List Bytes → Bytes → Progress → Progress
unfolding match_length push_output
round patterns pending p = elim (match_length patterns (drop p.cursor pending)) [
  | some n ↦ replace p n
  | none ↦ copy pending p
]

-- `while cursor < process_before`, on fuel; `none` means that the fuel ran out.
unfoldable pub rounds : ℕ → List Bytes → Bytes → ℕ → Progress → Option Progress
unfolding round
rounds zero patterns pending before p = if ltb p.cursor before then none else some p
rounds (suc fuel) patterns pending before p =
    let more = rounds fuel patterns pending before (round patterns pending p) in
    if ltb p.cursor before then more else some p

abbrev settle : StreamingRedactor → Option Progress → Option StreamingRedactor
settle r none = none
settle r (some p) =
    some (record r { pending = drop p.cursor r.pending; output = p.out; redactions = p.count })

unfoldable pub process_before : Bool → StreamingRedactor → ℕ
process_before at_end r =
    if at_end then length r.pending else length r.pending - (r.maximum_pattern_length - 1)

-- A round moves the cursor, so `process_before` rounds are enough if no pattern is empty.
unfoldable pub process : Bool → StreamingRedactor → Option StreamingRedactor
unfolding rounds process_before
process at_end r =
    let before = process_before at_end r in
    settle r (
      rounds before r.patterns r.pending before
        (record { cursor = 0; out = r.output; count = r.redactions }))

unfoldable pub push : StreamingRedactor → Bytes → Option StreamingRedactor
unfolding process
push r bytes = process false (record r {
  bytes_read = saturating_add r.bytes_read (min (length bytes) u64_max);
  pending = r.pending ++ bytes;
})

pub record RedactionSummary : Type 0 where
  pub output : Bytes
  pub bytes_read : ℕ
  pub redactions : ℕ
  pub truncated : Bool

abbrev summary : Option StreamingRedactor → Option RedactionSummary
summary none = none
summary (some r) = some (record {
  output = r.output.bytes;
  bytes_read = r.bytes_read;
  redactions = r.redactions;
  truncated = r.output.truncated;
})

unfoldable pub finish : StreamingRedactor → Option RedactionSummary
unfolding process
finish r = summary (process true r)
