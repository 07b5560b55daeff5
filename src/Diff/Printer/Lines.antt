-- ===== src/Diff/Printer/Lines.antt =====
-- What is printed is a list of lines: none of them holds a line end.
use blindfold.Prelude.{
  ℕ, ◌≢◌, ◌≤◌, arith, none, some, Option, List, [], ◌∷◌, ◌++◌, map, codes, All, All-map, All-append,
}
use blindfold.Core.SafeRef.{Text}
use blindfold.Diff.Text.Laws.{IsLine}
use blindfold.Prelude.Decimal.{decimal, decimal-IsDigits}
use blindfold.Diff.Patch.{
  PatchLineKind, context, removed, PatchLine, Hunk, FileChange, renamed, binary, FilePatch,
}
use blindfold.Diff.Parser.Numbering.{OnSome, old_total, new_total}
use blindfold.Diff.Printer.{
  mark, print_line, print_range, print_header, print_hunk, print_hunks, side, rename_lines,
  binary_lines, path_lines, print_section, print_sections, IsPlain, IsPrintableHunk, IsPrintable,
}

join : (xs ys : Text) → IsLine xs → IsLine ys → IsLine (xs ++ ys)
join = All-append (λ d. (d ≢ 10) × (d ≢ 13))

IsDigits-IsLine : (n : ℕ) → IsLine (decimal n)
IsDigits-IsLine n =
    All-map (λ c. (48 ≤ c) × (c ≤ 57)) (λ d. (d ≢ 10) × (d ≢ 13))
      (λ c h. (λ e. absurd (omega arith), λ e. absurd (omega arith))) (decimal n)
      (decimal-IsDigits n)

IsPlain-IsLine : (path : Text) → IsPlain path → IsLine path
IsPlain-IsLine = All-map _ (λ d. (d ≢ 10) × (d ≢ 13)) (λ c h. (h.1, h.2))

side-IsLine :
    (prefix : Text)
    → IsLine prefix
    → (path : Option Text) → OnSome IsPlain path
    → IsLine (side prefix path)
side-IsLine prefix h none k = omega arith
side-IsLine prefix h (some path) k = join prefix path h (IsPlain-IsLine path k)

print_range-IsLine : (start count : ℕ) → IsLine (print_range start count)
unfolding print_range
print_range-IsLine start count =
    join (decimal start) (44 ∷ decimal count) (IsDigits-IsLine start)
      (omega arith, IsDigits-IsLine count)

print_header-IsLine : (h : Hunk) → IsLine (print_header h)
unfolding print_header
print_header-IsLine h = join (codes "@@ -") _ (omega arith) (
    join (print_range h.old_start (old_total h.lines)) _
      (print_range-IsLine h.old_start (old_total h.lines))
      (join (codes " +") _ (omega arith) (
        join (print_range h.new_start (new_total h.lines)) (codes " @@")
          (print_range-IsLine h.new_start (new_total h.lines)) (omega arith))))

mark-IsLine : (kind : PatchLineKind) → (mark kind ≢ 10) × (mark kind ≢ 13)
mark-IsLine context = omega arith
mark-IsLine PatchLineKind.added = omega arith
mark-IsLine removed = omega arith

print_lines-IsLine :
    (lines : List PatchLine)
    → All (λ line. IsLine line.content) lines
    → All IsLine (map print_line lines)
print_lines-IsLine [] h = tt
print_lines-IsLine (line ∷ lines) h = ((mark-IsLine line.kind, h.0), print_lines-IsLine lines h.1)

print_hunks-IsLine :
    (hunks : List Hunk) → All IsPrintableHunk hunks → All IsLine (print_hunks hunks)
print_hunks-IsLine [] v = tt
print_hunks-IsLine (h ∷ hunks) v =
    All-append IsLine (print_hunk h) (print_hunks hunks)
      (print_header-IsLine h, print_lines-IsLine h.lines v.0.contents)
      (print_hunks-IsLine hunks v.1)

rename_lines-IsLine :
    (change : FileChange) (old new : Option Text)
    → OnSome IsPlain old
    → OnSome IsPlain new
    → All IsLine (rename_lines change old new)
rename_lines-IsLine renamed (some old) (some new) h k = (
  join (codes "rename from ") old (omega arith) (IsPlain-IsLine old h),
  (join (codes "rename to ") new (omega arith) (IsPlain-IsLine new k), tt),
)
rename_lines-IsLine _ _ _ h k = tt

binary_lines-IsLine :
    (change : FileChange) (old new : Option Text)
    → OnSome IsPlain old
    → OnSome IsPlain new
    → All IsLine (binary_lines change old new)
binary_lines-IsLine binary old new h k = (
  join (codes "Binary files ") _ (omega arith) (
      join (side (codes "a/") old) _ (side-IsLine (codes "a/") (omega arith) old h)
        (join (codes " and ") _ (omega arith) (side-IsLine (codes "b/") (omega arith) new k))),
  tt,
)
binary_lines-IsLine _ old new h k = tt

path_lines-IsLine :
    (old new : Option Text)
    → OnSome IsPlain old
    → OnSome IsPlain new
    → All IsLine (path_lines old new)
path_lines-IsLine old new h k = (
  join (codes "--- ") (side (codes "a/") old) (omega arith)
      (side-IsLine (codes "a/") (omega arith) old h),
  (
    join (codes "+++ ") (side (codes "b/") new) (omega arith)
        (side-IsLine (codes "b/") (omega arith) new k),
    tt,
  ),
)

pub print_sections-IsLine :
    (title : FilePatch → Text)
    → ((f : FilePatch) → IsLine (title f))
    → (files : List FilePatch) → All IsPrintable files
    → All IsLine (print_sections title files)
print_sections-IsLine title titled [] v = tt
print_sections-IsLine title titled (f ∷ files) v =
    let old = f.old_path in
    let new = f.new_path in
    let p = v.0 in
    All-append IsLine (print_section (title f) f) (print_sections title files)
      (
        join (codes "diff --git ") (title f) (omega arith) (titled f),
        All-append IsLine (rename_lines f.change old new) _
            (rename_lines-IsLine f.change old new p.old p.new)
            (All-append IsLine (binary_lines f.change old new) _
              (binary_lines-IsLine f.change old new p.old p.new)
              (All-append IsLine (path_lines old new) _ (path_lines-IsLine old new p.old p.new)
                (print_hunks-IsLine f.hunks p.hunks))),
      )
      (print_sections-IsLine title titled files v.1)
