-- ===== src/Diff/Parser.antt =====
-- crates/blindfold-diff/src/patch.rs: `parse_patch`, line by line over the section and the hunk that
-- are being read.
pub mod Steps
pub mod Numbering
pub mod Numbered
pub mod Overrun
pub mod NextFile
use blindfold.Prelude.{
  ℕ, Bool, true, false, not, ◌&&◌, ◌||◌, Option, none, some, List, [], ◌∷◌, ◌++◌, ◌==◌,
  if◌then◌else◌, codes, bytes_eq,
}
use blindfold.Core.SafeRef.{Text, strip_prefix, split_once}
use blindfold.Diff.Text
use blindfold.Diff.Text.{
  starts_with, strip_last, replace_pair, is_blank, split_whitespace, lines, parse_usize, after_char,
}
use blindfold.Diff.Patch.{
  Hunk, FilePatch, Patch, hunk_without_file, invalid_hunk_header, no_file_sections, Result, ok, err,
  ◌>>=◌, ok_or, FileBuilder, new_file, finish_section, HunkBuilder, push, finish_lines,
}

-- `unwrap_or`, and a value that may be missing
abbrev pub get_or {ℓ} : {A : Type ℓ} → Option A → A → A
get_or none other = other
get_or (some a) other = a

abbrev pub or_else {ℓ} : {A : Type ℓ} → Option A → Option A → Option A
or_else none other = other
or_else (some a) other = some a

abbrev pub unquoted : Option Text → Option Text
unquoted none = none
unquoted (some value) = strip_last 34 value

unfoldable pub unquote_path : Text → Text
unfolding strip_prefix strip_last replace_pair
unquote_path path =
    replace_pair 92 92 92
      (replace_pair 92 34 34 (get_or (unquoted (strip_prefix path (34 ∷ []))) path))

unfoldable pub parse_git_path : Text → Option Text
unfolding unquote_path strip_prefix bytes_eq
parse_git_path path =
    if bytes_eq path (codes "/dev/null")
    then none
    else some (
        unquote_path
          (get_or (or_else (strip_prefix path (codes "a/")) (strip_prefix path (codes "b/"))) path))

abbrev pub before_or : Option (Text × Text) → Text → Text
before_or none text = text
before_or (some (before, behind)) text = before

unfoldable pub parse_header_path : Text → Option Text
unfolding parse_git_path Text.split_once
parse_header_path path = parse_git_path (before_or (Text.split_once path (9 ∷ [])) path)

abbrev pub first_path : List Text → Option Text
first_path [] = none
first_path (word ∷ words) = parse_git_path word

abbrev pub second_path : List Text → Option Text
second_path [] = none
second_path (word ∷ words) = first_path words

unfoldable pub parse_diff_paths : Text → Option Text × Option Text
unfolding strip_prefix split_whitespace
parse_diff_paths line =
    let words = split_whitespace (get_or (strip_prefix line (codes "diff --git ")) []) in
    (first_path words, second_path words)

abbrev pub range_texts : Option (Text × Text) → Text → Text × Text
range_texts none range = (range, codes "1")
range_texts (some parts) range = parts

unfoldable pub parse_range : Text → Result (ℕ × ℕ)
unfolding parse_usize Text.split_once
parse_range range =
    let (start, count) = range_texts (Text.split_once range (44 ∷ [])) range in
    do
      s ← ok_or (parse_usize start) invalid_hunk_header
      c ← ok_or (parse_usize count) invalid_hunk_header
      ok (s, c)

abbrev pub split_body : Option Text → Option (Text × Text)
split_body none = none
split_body (some rest) = Text.split_once rest (codes " @@")

abbrev pub new_hunk : ℕ → ℕ → ℕ → ℕ → HunkBuilder
new_hunk old_start old_count new_start new_count = record {
  old_start = old_start;
  old_count = old_count;
  new_start = new_start;
  new_count = new_count;
  old_seen = 0;
  new_seen = 0;
  lines = [];
}

unfoldable pub parse_hunk_header : Text → Result HunkBuilder
unfolding strip_prefix parse_range Text.split_once
parse_hunk_header line = do
  (body, _) ← ok_or (split_body (strip_prefix line (codes "@@ -"))) invalid_hunk_header
  (old, new) ← ok_or (Text.split_once body (codes " +")) invalid_hunk_header
  (old_start, old_count) ← parse_range old
  (new_start, new_count) ← parse_range new
  ok (new_hunk old_start old_count new_start new_count)

-- The variables of `parse_patch`.
pub record Parsing : Type 0 where
  pub files : List FilePatch
  pub file : Option FileBuilder
  pub hunk : Option HunkBuilder

abbrev pub finish_active : Parsing → HunkBuilder → Option FileBuilder → Result Parsing
finish_active s hunk none = err hunk_without_file
finish_active s hunk (some b) = do
  done ← finish_lines hunk
  ok (record s { file = some (record b { hunks = b.hunks ++ (done ∷ []) }); hunk = none })

abbrev pub finish_hunk_in : Parsing → Option HunkBuilder → Result Parsing
finish_hunk_in s none = ok s
finish_hunk_in s (some hunk) = finish_active s hunk s.file

unfoldable pub finish_hunk : Parsing → Result Parsing
unfolding finish_lines
finish_hunk s = finish_hunk_in s s.hunk

abbrev pub finish_file_in : Parsing → Option FileBuilder → Parsing
finish_file_in s none = s
finish_file_in s (some b) = record s { files = s.files ++ (finish_section b ∷ []); file = none }

unfoldable pub finish_file : Parsing → Parsing
unfolding finish_section
finish_file s = finish_file_in s s.file

-- `diff --git `
unfoldable pub begin_file : Text → Parsing → Result Parsing
unfolding finish_hunk finish_file parse_diff_paths
begin_file line s = do
  finished ← finish_hunk s
  let (old_path, new_path) = parse_diff_paths line
  ok (record (finish_file finished) { file = some (new_file old_path new_path) })

abbrev pub begin_in : Text → Parsing → Option FileBuilder → Result Parsing
begin_in line s none = err hunk_without_file
begin_in line s (some b) = do hunk ← parse_hunk_header line; ok (record s { hunk = some hunk })

-- `@@ `
unfoldable pub begin_hunk : Text → Parsing → Result Parsing
unfolding finish_hunk parse_hunk_header
begin_hunk line s = do finished ← finish_hunk s; begin_in line finished finished.file

abbrev pub or_new : Option FileBuilder → FileBuilder
or_new none = new_file none none
or_new (some b) = b

-- A change of the section that is being read, if there is one.
abbrev pub change_file : (FileBuilder → FileBuilder) → Option FileBuilder → Option FileBuilder
change_file f none = none
change_file f (some b) = some (f b)

abbrev pub set_file : Option FileBuilder → Parsing → Parsing
set_file file s = record s { file = file }

pub binary_line : Text → Parsing → Parsing
unfolding starts_with bytes_eq
binary_line line s =
    if starts_with line (codes "Binary files ") || bytes_eq line (codes "GIT binary patch")
    then set_file (change_file (λ b. record b { binary = true }) s.file) s
    else s

pub rename_to_line : Text → Option Text → Parsing → Parsing
unfolding binary_line unquote_path
rename_to_line line none s = binary_line line s
rename_to_line line (some path) s =
    set_file
      (change_file (λ b. record b { new_path = some (unquote_path path); renamed = true }) s.file) s

pub rename_from_line : Text → Option Text → Parsing → Parsing
unfolding rename_to_line strip_prefix
rename_from_line line none s = rename_to_line line (strip_prefix line (codes "rename to ")) s
rename_from_line line (some path) s =
    set_file
      (change_file (λ b. record b { old_path = some (unquote_path path); renamed = true }) s.file) s

pub new_path_line : Text → Option Text → Parsing → Parsing
unfolding rename_from_line strip_prefix parse_header_path
new_path_line line none s = rename_from_line line (strip_prefix line (codes "rename from ")) s
new_path_line line (some path) s =
    set_file (some (record (or_new s.file) { new_path = parse_header_path path })) s

pub old_path_line : Text → Option Text → Parsing → Parsing
unfolding new_path_line strip_prefix parse_header_path
old_path_line line none s = new_path_line line (strip_prefix line (codes "+++ ")) s
old_path_line line (some path) s =
    set_file (some (record (or_new s.file) { old_path = parse_header_path path })) s

-- A line outside of hunks.
unfoldable pub header_line : Text → Parsing → Parsing
unfolding old_path_line strip_prefix
header_line line s = old_path_line line (strip_prefix line (codes "--- ")) s

abbrev pub no_newline : Text
no_newline = codes "\\ No newline at end of file"

abbrev pub inner_line : Text → Parsing → Option HunkBuilder → Result Parsing
inner_line line s none = ok (header_line line s)
inner_line line s (some hunk) =
    if bytes_eq line no_newline
    then ok s
    else (push line hunk >>= λ pushed. ok (record s { hunk = some pushed }))

-- One round of the loop of `parse_patch`.
unfoldable pub parse_line : Text → Parsing → Result Parsing
unfolding starts_with begin_file begin_hunk header_line push bytes_eq
parse_line line s =
    if starts_with line (codes "diff --git ")
    then begin_file line s
    else if starts_with line (codes "@@ ")
    then begin_hunk line s
    else inner_line line s s.hunk

unfoldable pub parse_lines : List Text → Parsing → Result Parsing
unfolding parse_line
parse_lines [] s = ok s
parse_lines (line ∷ rest) s = parse_line line s >>= parse_lines rest

abbrev pub is_empty {ℓ} : {A : Type ℓ} → List A → Bool
is_empty [] = true
is_empty (x ∷ xs) = false

abbrev pub initial : Parsing
initial = record { files = []; file = none; hunk = none }

abbrev pub sections : Text → List FilePatch → Result Patch
sections input files =
    if is_empty files && not (is_blank input)
    then err no_file_sections
    else ok (record { files = files })

unfoldable pub parse_patch : Text → Result Patch
unfolding lines parse_lines finish_hunk finish_file is_blank
parse_patch input = do
  s ← parse_lines (lines input) initial
  finished ← finish_hunk s
  sections input (finish_file finished).files
