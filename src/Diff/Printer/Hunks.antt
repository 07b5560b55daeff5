-- ===== src/Diff/Printer/Hunks.antt =====
-- Hunks that are written and read back.
use mathlib.Core.List.{append_assoc, append-nil}
use blindfold.Prelude.{
  ℕ, ◌+◌, ◌^◌, ◌%◌, ◌≤◌, ◌≡◌, ◌≢◌, refl, sym, subst, ap, ◌∙◌, arith, true, ◌==◌, none, some, List,
  [], ◌∷◌, ◌++◌, map, codes, ◌<◌, All, All-map, All-append,
}
use blindfold.Core.SafeRef.{Text, strip_prefix}
use blindfold.Diff.Text
use blindfold.Diff.Text.{usize_max, parse_usize}
use blindfold.Diff.Text.Laws.{Without, split_once-skip, split_once-at, behind, behind-some}
use blindfold.Prelude.Decimal.{decimal, IsDigits, decimal-IsDigits}
use blindfold.Diff.Text.Decimal.{parse_usize-decimal}
use blindfold.Diff.Patch.{
  PatchLineKind, context, removed, PatchLine, Hunk, FilePatch, ok, FileBuilder, HunkBuilder, push,
  finish_lines,
}
use blindfold.Diff.Parser.{
  Parsing, parse_range, parse_hunk_header, new_hunk, finish_hunk, begin_hunk, parse_line,
  parse_lines,
}
use blindfold.Diff.Parser.Steps.{parse_lines-append}
use blindfold.Diff.Parser.Numbering.{
  line_at, old_lines, new_lines, old_total, new_total, IsNumbered, pushed, push_kind-pushed,
}
use blindfold.Diff.Printer.{
  mark, print_line, print_range, print_header, print_hunk, print_hunks, IsPrintableHunk,
}

IsDigits-Without : (c : ℕ) (text : Text) → c < 48 → IsDigits text → Without c text
IsDigits-Without c text h =
    All-map (λ d. (48 ≤ d) × (d ≤ 57)) (λ d. d ≢ c) (λ d k e. absurd (omega arith)) text

print_range-Without : (start count : ℕ) → Without 32 (print_range start count)
unfolding print_range
print_range-Without start count =
    All-append (λ d. d ≢ 32) (decimal start) (44 ∷ decimal count)
      (IsDigits-Without 32 (decimal start) (omega arith) (decimal-IsDigits start))
      (omega arith, IsDigits-Without 32 (decimal count) (omega arith) (decimal-IsDigits count))

parse_range-print_range :
    (start count : ℕ)
    → start ≤ usize_max
    → count ≤ usize_max
    → parse_range (print_range start count) ≡ ok (start, count)
unfolding parse_range print_range
parse_range-print_range start count h k =
    let parts : Text.split_once (decimal start ++ (44 ∷ decimal count)) (44 ∷ [])
        ≡ some (decimal start, decimal count) =
      split_once-at (decimal start) (decimal count) 44 []
        (IsDigits-Without 44 (decimal start) (omega arith) (decimal-IsDigits start)) in
    rw (parts, parse_usize-decimal start h, parse_usize-decimal count k)

split_body_lem :
    (a b : Text)
    → Without 32 a
    → Without 32 b
    → Text.split_once (a ++ (32 ∷ 43 ∷ (b ++ codes " @@"))) (codes " @@")
      ≡ some (a ++ (32 ∷ 43 ∷ b), [])
split_body_lem a b h k =
    split_once-skip a (32 ∷ 43 ∷ (b ++ codes " @@")) 32 (64 ∷ 64 ∷ []) h
    ∙ ap (behind a) (later (split_once-at b [] 32 (64 ∷ 64 ∷ []) k))
    ∙ behind-some a (32 ∷ 43 ∷ b) []
  where
    later :
        Text.split_once (b ++ codes " @@") (codes " @@") ≡ some (b, [])
        → Text.split_once (32 ∷ 43 ∷ (b ++ codes " @@")) (codes " @@") ≡ some (32 ∷ 43 ∷ b, [])
    later e = unfold Text.split_once strip_prefix in rw e refl

abbrev pub in_hunk : List FilePatch → FileBuilder → HunkBuilder → Parsing
in_hunk files b hunk = record { files = files; file = some b; hunk = some hunk }

parse_hunk_header-print_header :
    (h : Hunk)
    → IsPrintableHunk h
    → parse_hunk_header (print_header h)
      ≡ ok (new_hunk h.old_start (old_total h.lines) h.new_start (new_total h.lines))
unfolding parse_hunk_header print_header strip_prefix
parse_hunk_header-print_header h v =
    let old = print_range h.old_start (old_total h.lines) in
    let new = print_range h.new_start (new_total h.lines) in
    let no_old = print_range-Without h.old_start (old_total h.lines) in
    let no_new = print_range-Without h.new_start (new_total h.lines) in
    let body = split_body_lem old new no_old no_new in
    let ranges = split_once-at old new 32 (43 ∷ []) no_old in
    rw (
      body,
      ranges,
      parse_range-print_range h.old_start (old_total h.lines) v.old_start v.old_count,
      parse_range-print_range h.new_start (new_total h.lines) v.new_start v.new_count,
    )

-- The variables while a section is read, outside of hunks.
abbrev pub in_file : List FilePatch → FileBuilder → Parsing
in_file files b = record { files = files; file = some b; hunk = none }

-- Once the hunk that is being read is finished, the section is `b`.
abbrev pub Ready : List FilePatch → FileBuilder → Parsing → Type 0
Ready files b s = finish_hunk s ≡ ok (in_file files b)

parse_line-header :
    (files : List FilePatch) (b : FileBuilder) (s : Parsing) (h : Hunk)
    → Ready files b s
    → IsPrintableHunk h
    → parse_line (print_header h) s
      ≡ ok (
          in_hunk files b
            (new_hunk h.old_start (old_total h.lines) h.new_start (new_total h.lines)))
unfolding parse_line begin_hunk
parse_line-header files b s h ready v =
    let tested : parse_line (print_header h) s ≡ begin_hunk (print_header h) s =
      unfold print_header in refl in
    tested ∙ rw (ready, parse_hunk_header-print_header h v)

parse_line-kind :
    (kind : PatchLineKind) (content : Text) (files : List FilePatch) (b : FileBuilder)
    (hunk : HunkBuilder)
    → parse_line (mark kind ∷ content) (in_hunk files b hunk)
      ≡ ok (in_hunk files b (pushed kind content hunk))
unfolding parse_line push
parse_line-kind context content files b hunk =
    ap (λ k. ok (in_hunk files b k)) (push_kind-pushed context content hunk)
parse_line-kind PatchLineKind.added content files b hunk =
    ap (λ k. ok (in_hunk files b k)) (push_kind-pushed PatchLineKind.added content hunk)
parse_line-kind removed content files b hunk =
    ap (λ k. ok (in_hunk files b k)) (push_kind-pushed removed content hunk)

add_assoc : (a b c : ℕ) → a + b + c ≡ a + (b + c)
add_assoc a b c = omega arith

-- A hunk with lines behind the lines that were read.
abbrev with_lines : List PatchLine → HunkBuilder → HunkBuilder
with_lines lines hunk = record hunk {
  old_seen = hunk.old_seen + old_total lines;
  new_seen = hunk.new_seen + new_total lines;
  lines = hunk.lines ++ lines;
}

with_lines-nil : (hunk : HunkBuilder) → hunk ≡ with_lines [] hunk
with_lines-nil hunk =
    let old : hunk.old_seen ≡ hunk.old_seen + 0 = omega arith in
    let new : hunk.new_seen ≡ hunk.new_seen + 0 = omega arith in
    λ i. record hunk { old_seen = old i; new_seen = new i; lines = sym (append-nil hunk.lines) i }

with_lines-cons :
    (line : PatchLine) (lines : List PatchLine) (hunk : HunkBuilder)
    → line
      ≡ line_at line.kind line.content
          ((hunk.old_start + hunk.old_seen) % 2 ^ 64)
          ((hunk.new_start + hunk.new_seen) % 2 ^ 64)
    → with_lines lines (pushed line.kind line.content hunk) ≡ with_lines (line ∷ lines) hunk
with_lines-cons line lines hunk e =
    let regroup =
      append_assoc hunk.lines
        (line_at line.kind line.content ((hunk.old_start + hunk.old_seen) % 2 ^ 64)
            ((hunk.new_start + hunk.new_seen) % 2 ^ 64)
          ∷ [])
        lines
      ∙ ap (λ l. hunk.lines ++ (l ∷ lines)) (sym e) in
    λ i. record hunk {
      old_seen = add_assoc hunk.old_seen (old_lines line.kind) (old_total lines) i;
      new_seen = add_assoc hunk.new_seen (new_lines line.kind) (new_total lines) i;
      lines = regroup i;
    }

IsNumbered-eq :
    (o p n q : ℕ) (lines : List PatchLine)
    → o ≡ p
    → n ≡ q
    → IsNumbered o n lines
    → IsNumbered p q lines
IsNumbered-eq o p n q lines e f h =
    subst (λ x. IsNumbered x q lines) e (subst (λ y. IsNumbered o y lines) f h)

parse_lines-lines :
    (lines : List PatchLine) (files : List FilePatch) (b : FileBuilder) (hunk : HunkBuilder)
    → IsNumbered (hunk.old_start + hunk.old_seen) (hunk.new_start + hunk.new_seen) lines
    → parse_lines (map print_line lines) (in_hunk files b hunk)
      ≡ ok (in_hunk files b (with_lines lines hunk))
unfolding parse_lines
parse_lines-lines [] files b hunk h = ap (λ k. ok (in_hunk files b k)) (with_lines-nil hunk)
parse_lines-lines (line ∷ lines) files b hunk h =
    rw (parse_line-kind line.kind line.content files b hunk) (
      parse_lines-lines lines files b (pushed line.kind line.content hunk) (
        IsNumbered-eq _ _ _ _ lines (add_assoc hunk.old_start hunk.old_seen (old_lines line.kind))
          (add_assoc hunk.new_start hunk.new_seen (new_lines line.kind)) h.1)
      ∙ ap (λ k. ok (in_hunk files b k)) (with_lines-cons line lines hunk h.0))

-- A hunk that is printed is read behind the hunks of the section.
pub record ReadOn (files : List FilePatch) (b : FileBuilder) (texts : List Text) (s : Parsing)
    : Type 0 where
  pub later : Parsing
  pub reads : parse_lines texts s ≡ ok later
  pub ready : Ready files b later

abbrev pub with_hunks : FileBuilder → List Hunk → FileBuilder
with_hunks b hunks = record b { hunks = b.hunks ++ hunks }

finish_hunk_full :
    (files : List FilePatch) (b : FileBuilder) (h : Hunk)
    → Ready files (with_hunks b (h ∷ [])) (
        in_hunk files b (
          with_lines h.lines
            (new_hunk h.old_start (old_total h.lines) h.new_start (new_total h.lines))))
unfolding finish_hunk finish_lines
finish_hunk_full files b h =
    let old : (0 + old_total h.lines == old_total h.lines) ≡ true = ground arith in
    let new : (0 + new_total h.lines == new_total h.lines) ≡ true = ground arith in
    rw (old, new) refl

parse_lines-print_hunk :
    (files : List FilePatch) (b : FileBuilder) (s : Parsing) (h : Hunk)
    → Ready files b s
    → IsPrintableHunk h
    → ReadOn files (with_hunks b (h ∷ [])) (print_hunk h) s
parse_lines-print_hunk files b s h ready v = record {
  later = in_hunk files b (
      with_lines h.lines
        (new_hunk h.old_start (old_total h.lines) h.new_start (new_total h.lines)));
  reads =
      unfold parse_lines in
      rw (parse_line-header files b s h ready v) (
        parse_lines-lines h.lines files b _ (
          IsNumbered-eq h.old_start (h.old_start + 0) h.new_start (h.new_start + 0) h.lines
            (omega arith) (omega arith) v.numbered));
  ready = finish_hunk_full files b h;
}

pub parse_lines-print_hunks :
    (hunks : List Hunk) (files : List FilePatch) (b : FileBuilder) (s : Parsing)
    → Ready files b s
    → All IsPrintableHunk hunks
    → ReadOn files (with_hunks b hunks) (print_hunks hunks) s
parse_lines-print_hunks [] files b s ready v = record {
  later = s;
  reads = unfold parse_lines in refl;
  ready =
      ready
      ∙ ap (λ (l : List Hunk). ok (in_file files (record b { hunks = l })))
          (sym (append-nil b.hunks));
}
parse_lines-print_hunks (h ∷ hunks) files b s ready v =
    let x = parse_lines-print_hunk files b s h ready v.0 in
    let y = parse_lines-print_hunks hunks files (with_hunks b (h ∷ [])) x.later x.ready v.1 in
    record {
      later = y.later;
      reads = parse_lines-append (print_hunk h) (print_hunks hunks) s x.later x.reads ∙ y.reads;
      ready =
          y.ready
          ∙ ap (λ (l : List Hunk). ok (in_file files (record b { hunks = l })))
              (append_assoc b.hunks (h ∷ []) hunks);
    }
