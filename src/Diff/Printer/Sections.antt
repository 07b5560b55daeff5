-- ===== src/Diff/Printer/Sections.antt =====
-- The lines of a section in front of its hunks, and whole sections.
use mathlib.Core.List.{append_assoc}
use blindfold.Prelude.{
  ◌≡◌, ◌≢◌, refl, sym, ap, ◌∙◌, arith, true, false, ◌==◌, Option, none, some, List, [], ◌∷◌, ◌++◌,
  codes, All-map, All-append,
}
use blindfold.Core.SafeRef.{Text, strip_prefix}
use blindfold.Diff.Text.Laws.{Without, split_once-absent, replace_pair-Without}
use blindfold.Diff.Patch.{
  Hunk, FileChange, renamed, binary, FilePatch, Result, ok, err, ◌>>=◌, FileBuilder, new_file,
  finish_section,
}
use blindfold.Diff.Parser.{
  Parsing, unquote_path, parse_git_path, parse_header_path, parse_diff_paths, header_line,
  finish_hunk, finish_file, begin_file, parse_line, parse_lines, get_or, unquoted,
}
use blindfold.Diff.Parser.Steps.{parse_lines-append}
use blindfold.Diff.Parser.Numbering.{OnSome}
use blindfold.Diff.Printer.{
  side, rename_lines, binary_lines, path_lines, print_section, print_hunks, IsPlain, Agrees,
  is_added, is_deleted, is_modified, is_renamed, is_binary, IsPrintable,
}
use blindfold.Diff.Printer.Hunks.{in_file, Ready, with_hunks, parse_lines-print_hunks}

IsPlain-Without_tab : (path : Text) → IsPlain path → Without 9 path
IsPlain-Without_tab = All-map _ (λ c. c ≢ 9) (λ c h. h.0)

IsPlain-Without_backslash : (path : Text) → IsPlain path → Without 92 path
IsPlain-Without_backslash = All-map _ (λ c. c ≢ 92) (λ c h. h.4)

unquoted-plain :
    (path : Text) → IsPlain path → get_or (unquoted (strip_prefix path (34 ∷ []))) path ≡ path
unfolding strip_prefix
unquoted-plain [] h = refl
unquoted-plain (c ∷ path) h = let other : (c == 34) ≡ false = ground (arith, h.0.3) in rw other refl

unquote_path-plain : (path : Text) → IsPlain path → unquote_path path ≡ path
unfolding unquote_path
unquote_path-plain path h =
    let plain = IsPlain-Without_backslash path h in
    rw (unquoted-plain path h, replace_pair-Without 92 34 34 path plain)
      (replace_pair-Without 92 92 92 path plain)

parse_git_path-a : (path : Text) → parse_git_path (codes "a/" ++ path) ≡ some (unquote_path path)
unfolding parse_git_path
parse_git_path-a path = refl

parse_git_path-b : (path : Text) → parse_git_path (codes "b/" ++ path) ≡ some (unquote_path path)
unfolding parse_git_path
parse_git_path-b path = refl

parse_header_path-side :
    (prefix : Text)
    → Without 9 prefix
    → ((path : Text) → parse_git_path (prefix ++ path) ≡ some (unquote_path path))
    → (path : Option Text) → OnSome IsPlain path
    → parse_header_path (side prefix path) ≡ path
unfolding parse_header_path
parse_header_path-side prefix clean strips none h = refl
parse_header_path-side prefix clean strips (some path) h =
    let clear = All-append (λ c. c ≢ 9) prefix path clean (IsPlain-Without_tab path h) in
    rw (split_once-absent (prefix ++ path) 9 [] clear)
      (strips path ∙ ap some (unquote_path-plain path h))

rename_step :
    (old new : Text) (files : List FilePatch) (b : FileBuilder)
    → IsPlain old
    → IsPlain new
    → parse_lines (rename_lines renamed (some old) (some new)) (in_file files b)
      ≡ ok (in_file files (record b { old_path = some old; new_path = some new; renamed = true }))
unfolding parse_lines parse_line header_line
rename_step old new files b h k =
    let first = unquote_path-plain old h in
    let second = unquote_path-plain new k in
    λ i. ok (
      in_file files
        (record b { old_path = some (first i); new_path = some (second i); renamed = true }))

path_step :
    (old new : Option Text) (files : List FilePatch) (b : FileBuilder)
    → OnSome IsPlain old
    → OnSome IsPlain new
    → parse_lines (path_lines old new) (in_file files b)
      ≡ ok (in_file files (record b { old_path = old; new_path = new }))
unfolding parse_lines parse_line header_line
path_step old new files b h k =
    let first = parse_header_path-side (codes "a/") (omega arith) parse_git_path-a old h in
    let second = parse_header_path-side (codes "b/") (omega arith) parse_git_path-b new k in
    λ i. ok (in_file files (record b { old_path = first i; new_path = second i }))

binary_step :
    (old new : Option Text) (files : List FilePatch) (b : FileBuilder)
    → parse_lines (binary_lines binary old new) (in_file files b)
      ≡ ok (in_file files (record b { binary = true }))
unfolding parse_lines parse_line header_line
binary_step old new files b = refl

-- The lines in front of the hunks, which give the section its paths and its change.
record HeadRead (change : FileChange) (old new : Option Text) (files : List FilePatch)
    (b : FileBuilder) : Type 0 where
  head : FileBuilder
  reads :
      parse_lines
        (rename_lines change old new ++ (binary_lines change old new ++ path_lines old new))
        (in_file files b)
      ≡ ok (in_file files head)
  finished :
      (hunks : List Hunk)
      → finish_section (with_hunks head hunks)
        ≡ record { old_path = old; new_path = new; change = change; hunks = hunks }

head_read :
    (change : FileChange) (old new : Option Text) (files : List FilePatch) (x y : Option Text)
    → Agrees change old new
    → OnSome IsPlain old
    → OnSome IsPlain new
    → HeadRead change old new files (new_file x y)
unfolding finish_section
head_read change old new files x y (is_added new') h k = record {
  head = record (new_file x y) { old_path = none; new_path = new' };
  reads = path_step none new' files (new_file x y) h k;
  finished = λ hunks. refl;
}
head_read change old new files x y (is_deleted old') h k = record {
  head = record (new_file x y) { old_path = some old'; new_path = none };
  reads = path_step (some old') none files (new_file x y) h k;
  finished = λ hunks. refl;
}
head_read change old new files x y (is_modified old' new') h k = record {
  head = record (new_file x y) { old_path = some old'; new_path = some new' };
  reads = path_step (some old') (some new') files (new_file x y) h k;
  finished = λ hunks. refl;
}
head_read change old new files x y (is_renamed old' new') h k =
    let renamed_file = record (new_file x y) {
      old_path = some old';
      new_path = some new';
      renamed = true;
    } in
    record {
      head = renamed_file;
      reads =
          parse_lines-append (rename_lines renamed (some old') (some new'))
            (path_lines (some old') (some new')) (in_file files (new_file x y))
            (in_file files renamed_file) (rename_step old' new' files (new_file x y) h k)
          ∙ path_step (some old') (some new') files renamed_file h k;
      finished = λ hunks. refl;
    }
head_read change old new files x y (is_binary old' new') h k =
    let binary_file = record (new_file x y) { binary = true } in
    record {
      head = record binary_file { old_path = old'; new_path = new' };
      reads =
          parse_lines-append (binary_lines binary old' new') (path_lines old' new')
            (in_file files (new_file x y)) (in_file files binary_file)
            (binary_step old' new' files (new_file x y))
          ∙ path_step old' new' files binary_file h k;
      finished = λ hunks. refl;
    }

-- Once the hunk and the section that are being read are finished, these are the sections.
abbrev pub Closes : List FilePatch → Parsing → Type 0
Closes files s =
    (finish_hunk s >>= λ t. ok (finish_file t))
    ≡ ok (record { files = files; file = none; hunk = none })

title_step :
    (title : Text) (files : List FilePatch) (s : Parsing)
    → Closes files s
    → parse_line (codes "diff --git " ++ title) s
      ≡ ok (
          in_file files (
            new_file
              (parse_diff_paths (codes "diff --git " ++ title)).0
              (parse_diff_paths (codes "diff --git " ++ title)).1))
unfolding parse_line begin_file
title_step title files s closes = go (finish_hunk s) closes
  where
    started : Parsing → Parsing
    started t = record t {
      file = some (
          new_file (parse_diff_paths (codes "diff --git " ++ title)).0
            (parse_diff_paths (codes "diff --git " ++ title)).1);
    }

    inj : {t u : Parsing} → ok t ≡ ok u → t ≡ u
    inj e = cc

    go :
        (m : Result Parsing)
        → (m >>= λ t. ok (finish_file t)) ≡ ok (record { files = files; file = none; hunk = none })
        → (m >>= λ t. ok (started (finish_file t)))
          ≡ ok (started (record { files = files; file = none; hunk = none }))
    go (ok t) h = ap (λ u. ok (started u)) (inj h)
    go (err e) h = absurd (cc h)

-- What is read when a section is printed behind finished sections.
pub record SectionRead (files : List FilePatch) (texts : List Text) (s : Parsing) : Type 0 where
  pub later : Parsing
  pub reads : parse_lines texts s ≡ ok later
  pub closes : Closes files later

in_file-Ready : (files : List FilePatch) (b : FileBuilder) → Ready files b (in_file files b)
unfolding finish_hunk
in_file-Ready files b = refl

closed :
    (files : List FilePatch) (b : FileBuilder) (f : FilePatch)
    → finish_section b ≡ f
    → ok (finish_file (in_file files b))
      ≡ ok (record { files = files ++ (f ∷ []); file = none; hunk = none })
unfolding finish_file
closed files b f e = ap (λ g. ok (record { files = files ++ (g ∷ []); file = none; hunk = none })) e

pub parse_lines-print_section :
    (title : Text) (f : FilePatch) (files : List FilePatch) (s : Parsing)
    → Closes files s
    → IsPrintable f
    → SectionRead (files ++ (f ∷ [])) (print_section title f) s
unfolding parse_lines
parse_lines-print_section title f files s closes v =
    let paths = parse_diff_paths (codes "diff --git " ++ title) in
    let r = head_read f.change f.old_path f.new_path files paths.0 paths.1 v.agrees v.old v.new in
    let x =
      parse_lines-print_hunks f.hunks files r.head (in_file files r.head)
        (in_file-Ready files r.head) v.hunks in
    let front = rename_lines f.change f.old_path f.new_path in
    let middle = binary_lines f.change f.old_path f.new_path in
    let paths_of = path_lines f.old_path f.new_path in
    let texts = print_hunks f.hunks in
    let regroup : front ++ (middle ++ (paths_of ++ texts))
        ≡ (front ++ (middle ++ paths_of)) ++ texts =
      ap (λ (l : List Text). front ++ l) (sym (append_assoc middle paths_of texts))
      ∙ sym (append_assoc front (middle ++ paths_of) texts) in
    record {
      later = x.later;
      reads =
          ap (λ m. m >>= parse_lines (front ++ (middle ++ (paths_of ++ texts))))
            (title_step title files s closes)
          ∙ ap (λ (l : List Text). parse_lines l (in_file files (new_file paths.0 paths.1))) regroup
          ∙ parse_lines-append (front ++ (middle ++ paths_of)) texts
              (in_file files (new_file paths.0 paths.1)) (in_file files r.head) r.reads
          ∙ x.reads;
      closes =
          ap (λ m. m >>= λ t. ok (finish_file t)) x.ready
          ∙ closed files (with_hunks r.head f.hunks) f (r.finished f.hunks);
    }
