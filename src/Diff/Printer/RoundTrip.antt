-- ===== src/Diff/Printer/RoundTrip.antt =====
-- A patch that is written is read back.
use mathlib.Core.List.{append_assoc, append-nil}
use blindfold.Prelude.{◌≡◌, refl, sym, subst, ap, ◌∙◌, none, List, [], ◌∷◌, ◌++◌, All}
use blindfold.Core.SafeRef.{Text}
use blindfold.Diff.Text.{lines, is_blank}
use blindfold.Prelude.Splitting.{unlines}
use blindfold.Diff.Text.Laws.{IsLine, lines-unlines}
use blindfold.Diff.Patch.{FilePatch, Patch, Result, ok, err, ◌>>=◌}
use blindfold.Diff.Parser.{
  Parsing, finish_hunk, finish_file, parse_lines, sections, initial, parse_patch,
}
use blindfold.Diff.Parser.Steps.{parse_lines-append}
use blindfold.Diff.Printer.{print_section, print_sections, print_patch, IsPrintable}
use blindfold.Diff.Printer.Lines.{print_sections-IsLine}
use blindfold.Diff.Printer.Sections.{Closes, SectionRead, parse_lines-print_section}

parse_lines-print_sections :
    (title : FilePatch → Text) (fs files : List FilePatch) (s : Parsing)
    → Closes files s
    → All IsPrintable fs
    → SectionRead (files ++ fs) (print_sections title fs) s
parse_lines-print_sections title [] files s closes v = record {
  later = s;
  reads = unfold parse_lines in refl;
  closes = subst (λ l. Closes l s) (sym (append-nil files)) closes;
}
parse_lines-print_sections title (f ∷ fs) files s closes v =
    let x = parse_lines-print_section (title f) f files s closes v.0 in
    let y = parse_lines-print_sections title fs (files ++ (f ∷ [])) x.later x.closes v.1 in
    record {
      later = y.later;
      reads =
          parse_lines-append (print_section (title f) f) (print_sections title fs) s x.later x.reads
          ∙ y.reads;
      closes = subst (λ l. Closes l y.later) (append_assoc files (f ∷ []) fs) y.closes;
    }

-- The sections that are printed are what `parse_patch` returns.
close-ok :
    (input : Text) (files : List FilePatch) (s : Parsing)
    → Closes files s
    → sections input files ≡ ok (record { files = files })
    → (finish_hunk s >>= λ t. sections input (finish_file t).files) ≡ ok (record { files = files })
close-ok input files s closes e = go (finish_hunk s) closes
  where
    inj : {t u : Parsing} → ok t ≡ ok u → t ≡ u
    inj p = cc

    go :
        (m : Result Parsing)
        → (m >>= λ t. ok (finish_file t)) ≡ ok (record { files = files; file = none; hunk = none })
        → (m >>= λ t. sections input (finish_file t).files) ≡ ok (record { files = files })
    go (ok t) h = ap (λ (u : Parsing). sections input u.files) (inj h) ∙ e
    go (err x) h = absurd (cc h)

sections-printed :
    (title : FilePatch → Text) (p : Patch) → sections (print_patch title p) p.files ≡ ok p
sections-printed title p = go p.files refl
  where
    go :
        (files : List FilePatch)
        → p.files ≡ files
        → sections (unlines (print_sections title files)) files ≡ ok p
    go [] e =
        unfold unlines is_blank in ap (λ (l : List FilePatch). ok (record { files = l })) (sym e)
    go (f ∷ files) e = ap (λ (l : List FilePatch). ok (record { files = l })) (sym e)

initial-Closes : Closes [] initial
unfolding finish_hunk finish_file
initial-Closes = refl

-- Let every file of a patch have a change that its paths agree with, paths without quotation marks,
-- backslashes, tabs or line ends, and hunks whose lines are numbered from their starts on, hold no
-- line end, and are not so many that a start or a count does not fit 64 bits. Written as unified text,
-- with any one-line title behind `diff --git `, the patch is what `parse_patch` returns.
pub parse_patch-print_patch :
    (title : FilePatch → Text) (p : Patch)
    → ((f : FilePatch) → IsLine (title f))
    → All IsPrintable p.files
    → parse_patch (print_patch title p) ≡ ok p
unfolding parse_patch
parse_patch-print_patch title p titled v =
    let x = parse_lines-print_sections title p.files [] initial initial-Closes v in
    let text = print_patch title p in
    let read : parse_lines (lines text) initial ≡ ok x.later =
      ap (λ (l : List Text). parse_lines l initial)
        (lines-unlines (print_sections title p.files)
          (print_sections-IsLine title titled p.files v))
      ∙ x.reads in
    ap (λ m. m >>= λ s. (finish_hunk s >>= λ t. sections text (finish_file t).files)) read
    ∙ close-ok text p.files x.later x.closes (sections-printed title p)
