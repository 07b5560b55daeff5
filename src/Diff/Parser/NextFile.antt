-- ===== src/Diff/Parser/NextFile.antt =====
-- crates/blindfold-diff/src/patch.rs: the header of a file behind a hunk, without a `diff --git` line
-- in between.
use blindfold.Prelude.{
  ◌≡◌, ◌≢◌, refl, ap, ◌∙◌, ◌⊎◌, inl, inr, arith, Option, none, some, List, [], ◌∷◌, ◌++◌, codes,
  ◌==◌, false,
}
use blindfold.Core.SafeRef.{Text}
use blindfold.Diff.Text.{lines}
use blindfold.Diff.Patch.{
  removed, PatchLineKind, ok, err, hunk_count_mismatch, FileBuilder, HunkBuilder, push,
  finish_lines, ◌>>=◌,
}
use blindfold.Diff.Parser.{
  Parsing, finish_hunk, begin_file, begin_hunk, begin_in, parse_line, parse_lines, initial,
  parse_patch, parse_hunk_header,
}
use blindfold.Diff.Parser.Steps.{
  Ensures, Ensures-then, Ensures-ok, header_line-HeaderKept, parse_line-Ensures,
  parse_lines-Ensures, parse_lines-append,
}
use blindfold.Diff.Parser.Numbering.{pushed, push_kind-pushed}

-- A hunk is only read in a file.
abbrev IsInFile : Parsing → Type 0
IsInFile s = (s.hunk ≡ none) ⊎ ((b : FileBuilder) × (s.file ≡ some b))

begin_file-IsInFile : (line : Text) (s : Parsing) → Ensures IsInFile (begin_file line s)
unfolding begin_file
begin_file-IsInFile line s = Ensures-then IsInFile (finish_hunk s) _ (λ t. inr (_, refl))

begin_hunk-IsInFile : (line : Text) (s : Parsing) → Ensures IsInFile (begin_hunk line s)
unfolding begin_hunk
begin_hunk-IsInFile line s = Ensures-then IsInFile (finish_hunk s) _ (λ t. in_file t t.file refl)
  where
    in_file :
        (t : Parsing) (file : Option FileBuilder)
        → t.file ≡ file
        → Ensures IsInFile (begin_in line t file)
    in_file t none e = tt
    in_file t (some b) e = Ensures-then IsInFile (parse_hunk_header line) _ (λ hunk. inr (b, e))

parse_line-IsInFile :
    (line : Text) (s : Parsing) → IsInFile s → Ensures IsInFile (parse_line line s)
parse_line-IsInFile line s h =
    parse_line-Ensures IsInFile line s (begin_file-IsInFile line s) (begin_hunk-IsInFile line s)
      (λ e. inl ((header_line-HeaderKept line s).hunk ∙ e)) h
      (λ hunk pushed e p. elim h [ inl n ↦ cc (e, n) | inr b ↦ inr b ])

module _ (s : Parsing) (hunk : HunkBuilder) (active : s.hunk ≡ some hunk) where
  old_path_line-pushed :
      (path : Text)
      → parse_line (codes "--- " ++ path) s
        ≡ ok (record s { hunk = some (pushed removed (codes "-- " ++ path) hunk) })
  unfolding parse_line push
  old_path_line-pushed path = rw active (
      ap (λ h. ok (record s { hunk = some h }))
        (push_kind-pushed removed (codes "-- " ++ path) hunk))

  new_path_line-pushed :
      (path : Text)
      → parse_line (codes "+++ " ++ path) s
        ≡ ok (record s { hunk = some (pushed PatchLineKind.added (codes "++ " ++ path) hunk) })
  unfolding parse_line push
  new_path_line-pushed path = rw active (
      ap (λ h. ok (record s { hunk = some h }))
        (push_kind-pushed PatchLineKind.added (codes "++ " ++ path) hunk))

  header-mismatch :
      (b : FileBuilder) (header : Text)
      → s.file ≡ some b
      → hunk.old_seen ≢ hunk.old_count
      → parse_line (codes "@@ " ++ header) s ≡ err hunk_count_mismatch
  unfolding parse_line begin_hunk finish_hunk finish_lines
  header-mismatch b header file over =
      let differs : (hunk.old_seen == hunk.old_count) ≡ false = ground (arith, over) in
      rw (active, file, differs)

-- Let the lines of a text be read up to a hunk that has all the lines of the old file that its header
-- says. If the header of the next file follows as in an ordinary unified patch, `--- ` and a path,
-- `+++ ` and a path, and `@@ `, then the first of these lines is read as a removed line of the hunk and
-- the second as an added line, and `parse_patch` rejects the text with `HunkCountMismatch`.
pub parse_patch-next_file :
    (input old_path new_path header : Text) (before rest : List Text) (s : Parsing)
    (hunk : HunkBuilder)
    → lines input
      ≡ before
        ++ ((codes "--- " ++ old_path)
            ∷ (codes "+++ " ++ new_path)
            ∷ (codes "@@ " ++ header)
            ∷ rest)
    → parse_lines before initial ≡ ok s
    → s.hunk ≡ some hunk
    → hunk.old_seen ≡ hunk.old_count
    → (parse_lines
          (before ++ ((codes "--- " ++ old_path) ∷ (codes "+++ " ++ new_path) ∷ []))
          initial
        ≡ ok (record s {
          hunk = some (
              pushed PatchLineKind.added
                (codes "++ " ++ new_path)
                (pushed removed (codes "-- " ++ old_path) hunk));
        }))
      × (parse_patch input ≡ err hunk_count_mismatch)
parse_patch-next_file input old_path new_path header before rest s hunk split run active full =
    let first = pushed removed (codes "-- " ++ old_path) hunk in
    let second = pushed PatchLineKind.added (codes "++ " ++ new_path) first in
    let s1 : Parsing = record s { hunk = some first } in
    let s2 : Parsing = record s { hunk = some second } in
    let read1 = old_path_line-pushed s hunk active old_path in
    let read2 = new_path_line-pushed s1 first refl new_path in
    let (b, file) = file_of s hunk active (
      Ensures-ok IsInFile (parse_lines before initial) s
        (parse_lines-Ensures IsInFile parse_line-IsInFile before initial (inl refl)) run) in
    let stops =
      header-mismatch s2 second refl b header file (λ e. absurd (omega (arith, e, full))) in
    let both : (tail : List Text)
        → parse_lines ((codes "--- " ++ old_path) ∷ (codes "+++ " ++ new_path) ∷ tail) s
          ≡ parse_lines tail s2 =
      (λ tail.
        unfold parse_lines in
        ap (λ m. m >>= parse_lines ((codes "+++ " ++ new_path) ∷ tail)) read1
        ∙ ap (λ m. m >>= parse_lines tail) read2) in
    (
      parse_lines-append before _ initial s run ∙ both [] ∙ (unfold parse_lines in refl),
      rejected input (
          ap (λ l. parse_lines l initial) split
          ∙ parse_lines-append before _ initial s run
          ∙ both ((codes "@@ " ++ header) ∷ rest)
          ∙ (unfold parse_lines in ap (λ m. m >>= parse_lines rest) stops)),
    )
  where
    file_of :
        (s : Parsing) (hunk : HunkBuilder)
        → s.hunk ≡ some hunk
        → IsInFile s
        → (b : FileBuilder) × (s.file ≡ some b)
    file_of s hunk e (inl n) = absurd (cc (e, n))
    file_of s hunk e (inr b) = b

    rejected :
        (input : Text)
        → parse_lines (lines input) initial ≡ err hunk_count_mismatch
        → parse_patch input ≡ err hunk_count_mismatch
    rejected input e = unfold parse_patch in rw e
