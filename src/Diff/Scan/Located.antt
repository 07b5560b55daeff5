-- ===== src/Diff/Scan/Located.antt =====
-- Where the findings of a report are.
use blindfold.Prelude.{
  ℕ, ◌+◌, ◌%◌, ◌^◌, ◌≡◌, subst, ap, ◌∙◌, arith, some, List, [], ◌∷◌, ◌++◌, All, All-map, All-mem,
}
use blindfold.Core.SafeRef.{Text}
use blindfold.Diff.Patch.{PatchLineKind, PatchLine, FilePatch, Patch, ok}
use blindfold.Diff.Parser.{parse_patch}
use blindfold.Diff.Parser.Numbering.{
  line_at, old_lines, new_lines, old_total, new_total, IsNumbered, IsNumberedHunk,
}
use blindfold.Diff.Parser.Numbered.{parse_patch-IsNumbered}
use blindfold.Diff.Scan.{Detector, Finding, scan_with}
use blindfold.Diff.Scan.Sources.{IsLocated, scan_with-IsLocated}

-- The line in the middle of numbered lines has the number that those before it lead to.
IsNumbered-middle :
    (old new : ℕ) (before : List PatchLine) (line : PatchLine) (after : List PatchLine)
    → IsNumbered old new (before ++ (line ∷ after))
    → line
      ≡ line_at line.kind line.content
          ((old + old_total before) % 2 ^ 64)
          ((new + new_total before) % 2 ^ 64)
IsNumbered-middle old new [] line after h =
    let e : old % 2 ^ 64 ≡ (old + 0) % 2 ^ 64 = omega arith in
    let f : new % 2 ^ 64 ≡ (new + 0) % 2 ^ 64 = omega arith in
    h.0 ∙ (λ i. line_at line.kind line.content (e i) (f i))
IsNumbered-middle old new (first ∷ before) line after h =
    let e : old + old_lines first.kind + old_total before
        ≡ old + (old_lines first.kind + old_total before) =
      omega arith in
    let f : new + new_lines first.kind + new_total before
        ≡ new + (new_lines first.kind + new_total before) =
      omega arith in
    IsNumbered-middle (old + old_lines first.kind) (new + new_lines first.kind) before line after
      h.1
    ∙ (λ i. line_at line.kind line.content (e i % 2 ^ 64) (f i % 2 ^ 64))

added_number :
    (line : PatchLine) (old new number : ℕ)
    → line.kind ≡ PatchLineKind.added
    → line.new_line ≡ some number
    → line ≡ line_at line.kind line.content old new
    → number ≡ new
added_number line old new number is_added numbered e =
    let there =
      ap (λ (l : PatchLine). l.new_line) e
      ∙ ap (λ k. (line_at k line.content old new).new_line) is_added in
    cc (there, numbered)

module _ (detect : Detector) (input : Text) (p : Patch) (parsed : parse_patch input ≡ ok p) where
  -- A located finding has the number that the line has in the new file.
  pub record IsAtLine (f : Finding) : Type 0 where
    pub located : IsLocated detect p f
    pub counted : f.line ≡ (located.hunk.new_start + new_total located.before) % 2 ^ 64

  -- Where a parsed patch is scanned, every finding stands at an added line of a text file that the
  -- patch leaves in place; the detector has detected it in that line, and no more severely than it is
  -- reported; and its line number is the start of the hunk plus the lines of the new file in front of it, modulo 2^64.
  pub scan_with-IsAtLine : All IsAtLine (scan_with detect p).findings
  scan_with-IsAtLine =
      All-map (IsLocated detect p) IsAtLine
        (λ f l. record {
          located = l;
          counted = added_number l.line _ _ f.line l.is_added l.number (
              IsNumbered-middle l.hunk.old_start l.hunk.new_start l.before l.line l.after (
                subst (IsNumbered l.hunk.old_start l.hunk.new_start) l.splits (
                  All-mem IsNumberedHunk l.in_file (
                    All-mem (λ (g : FilePatch). All IsNumberedHunk g.hunks) l.in_patch
                      (parse_patch-IsNumbered input p parsed)))));
        })
        (scan_with detect p).findings (scan_with-IsLocated detect p)
