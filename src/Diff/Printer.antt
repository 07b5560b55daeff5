-- ===== src/Diff/Printer.antt =====
-- How a patch is written as unified text, for stating that the parser of
-- crates/blindfold-diff/src/patch.rs reads it back. The source has no printer.
pub mod Hunks
pub mod Sections
pub mod Lines
pub mod RoundTrip
use blindfold.Prelude.{ℕ, ◌≢◌, ◌≤◌, Option, none, some, List, [], ◌∷◌, ◌++◌, map, codes, All}
use blindfold.Core.SafeRef.{Text}
use blindfold.Diff.Text.{usize_max}
use blindfold.Prelude.Splitting.{unlines}
use blindfold.Diff.Text.Laws.{IsLine}
use blindfold.Prelude.Decimal.{decimal}
use blindfold.Diff.Patch.{
  PatchLineKind, context, removed, PatchLine, Hunk, FileChange, deleted, modified, renamed, binary,
  FilePatch, Patch,
}
use blindfold.Diff.Parser.Numbering.{OnSome, IsNumberedHunk, old_total, new_total}

abbrev pub mark : PatchLineKind → ℕ
mark context = 32
mark PatchLineKind.added = 43
mark removed = 45

abbrev pub print_line : PatchLine → Text
print_line line = mark line.kind ∷ line.content

unfoldable pub print_range : ℕ → ℕ → Text
print_range start count = decimal start ++ (44 ∷ decimal count)

unfoldable pub print_header : Hunk → Text
print_header h =
    codes "@@ -"
    ++ (print_range h.old_start (old_total h.lines)
        ++ (codes " +" ++ (print_range h.new_start (new_total h.lines) ++ codes " @@")))

abbrev pub print_hunk : Hunk → List Text
print_hunk h = print_header h ∷ map print_line h.lines

abbrev pub print_hunks : List Hunk → List Text
print_hunks [] = []
print_hunks (h ∷ hunks) = print_hunk h ++ print_hunks hunks

abbrev pub side : Text → Option Text → Text
side prefix none = codes "/dev/null"
side prefix (some path) = prefix ++ path

abbrev pub rename_lines : FileChange → Option Text → Option Text → List Text
rename_lines renamed (some old) (some new) =
    (codes "rename from " ++ old) ∷ (codes "rename to " ++ new) ∷ []
rename_lines _ _ _ = []

abbrev pub binary_lines : FileChange → Option Text → Option Text → List Text
binary_lines binary old new =
    (codes "Binary files " ++ (side (codes "a/") old ++ (codes " and " ++ side (codes "b/") new)))
    ∷ []
binary_lines _ _ _ = []

abbrev pub path_lines : Option Text → Option Text → List Text
path_lines old new =
    (codes "--- " ++ side (codes "a/") old) ∷ (codes "+++ " ++ side (codes "b/") new) ∷ []

-- A section with the given text behind `diff --git `.
abbrev pub print_section : Text → FilePatch → List Text
print_section title f =
    (codes "diff --git " ++ title)
    ∷ (rename_lines f.change f.old_path f.new_path
        ++ (binary_lines f.change f.old_path f.new_path
            ++ (path_lines f.old_path f.new_path ++ print_hunks f.hunks)))

abbrev pub print_sections : (FilePatch → Text) → List FilePatch → List Text
print_sections title [] = []
print_sections title (f ∷ files) = print_section (title f) f ++ print_sections title files

abbrev pub print_patch : (FilePatch → Text) → Patch → Text
print_patch title p = unlines (print_sections title p.files)

-- A path that needs no quotes: without a tab, a line end, a quotation mark or a backslash.
abbrev pub IsPlain : Text → Type 0
IsPlain = All (λ c. (c ≢ 9) × (c ≢ 10) × (c ≢ 13) × (c ≢ 34) × (c ≢ 92))

-- The change that a section has by its paths, unless it is a renaming or binary.
pub data Agrees : FileChange → Option Text → Option Text → Type 0 where
  is_added : (new : Option Text) → Agrees FileChange.added none new
  is_deleted : (old : Text) → Agrees deleted (some old) none
  is_modified : (old new : Text) → Agrees modified (some old) (some new)
  is_renamed : (old new : Text) → Agrees renamed (some old) (some new)
  is_binary : (old new : Option Text) → Agrees binary old new

pub record IsPrintableHunk (h : Hunk) : Type 0 where
  pub numbered : IsNumberedHunk h
  pub old_start : h.old_start ≤ usize_max
  pub new_start : h.new_start ≤ usize_max
  pub old_count : old_total h.lines ≤ usize_max
  pub new_count : new_total h.lines ≤ usize_max
  pub contents : All (λ line. IsLine line.content) h.lines

pub record IsPrintable (f : FilePatch) : Type 0 where
  pub agrees : Agrees f.change f.old_path f.new_path
  pub old : OnSome IsPlain f.old_path
  pub new : OnSome IsPlain f.new_path
  pub hunks : All IsPrintableHunk f.hunks
