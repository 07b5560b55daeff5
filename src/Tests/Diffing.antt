-- ===== src/Tests/Diffing.antt =====
-- Patches that are parsed and scanned.
use blindfold.Prelude.{◌≡◌, refl, none, some, List, [], ◌∷◌, ◌++◌, codes, bytes_eq, All, arith}
use blindfold.Core.SafeRef.{Text}
use blindfold.Diff.Text.{lines}
use blindfold.Diff.Text.Laws.{IsLine}
use blindfold.Diff.Patch.{
  modified, context, removed, PatchLineKind, FilePatch, Patch, ok, err, hunk_count_mismatch,
  HunkBuilder, new_file,
}
use blindfold.Diff.Parser.{Parsing, initial, parse_lines, parse_patch, parse_git_path}
use blindfold.Diff.Parser.Numbering.{IsNumberedHunk, pushed}
use blindfold.Diff.Parser.Numbered.{parse_patch-IsNumbered}
use blindfold.Diff.Parser.NextFile.{parse_patch-next_file}
use blindfold.Diff.Printer.{IsPrintable, is_modified, print_patch}
use blindfold.Diff.Printer.RoundTrip.{parse_patch-print_patch}

abbrev git_text : Text
git_text =
    codes
      "diff --git a/src/a.rs b/src/a.rs\nindex 1..2 100644\n--- a/src/a.rs\n+++ b/src/a.rs\n@@ -3,2 +3,3 @@ fn f\n one\n-two\n+three\r\n+four\n"

abbrev git_patch : Patch
git_patch = record {
  files =
      record {
        old_path = some (codes "src/a.rs");
        new_path = some (codes "src/a.rs");
        change = modified;
        hunks =
            record {
              old_start = 3;
              new_start = 3;
              lines =
                  record {
                    kind = context;
                    old_line = some 3;
                    new_line = some 3;
                    content = codes "one";
                  }
                  ∷ record {
                    kind = removed;
                    old_line = some 4;
                    new_line = none;
                    content = codes "two";
                  }
                  ∷ record {
                    kind = PatchLineKind.added;
                    old_line = none;
                    new_line = some 4;
                    content = codes "three";
                  }
                  ∷ record {
                    kind = PatchLineKind.added;
                    old_line = none;
                    new_line = some 5;
                    content = codes "four";
                  }
                  ∷ [];
            }
            ∷ [];
      }
      ∷ [];
}

parse_patch_run : parse_patch git_text ≡ ok git_patch
unfolding parse_patch bytes_eq
parse_patch_run = refl

-- Two sections of an ordinary patch: the second `---` is read as a removed line.
abbrev ordinary_text : Text
ordinary_text = codes "--- a/x\n+++ b/x\n@@ -0,0 +1 @@\n+y\n--- a/z\n+++ b/z\n@@ -0,0 +1 @@\n+y\n"

ordinary_run : parse_patch ordinary_text ≡ err hunk_count_mismatch
unfolding parse_patch
ordinary_run = refl

abbrev ordinary_before : List Text
ordinary_before = codes "--- a/x" ∷ codes "+++ b/x" ∷ codes "@@ -0,0 +1 @@" ∷ codes "+y" ∷ []

abbrev ordinary_hunk : HunkBuilder
ordinary_hunk = record {
  old_start = 0;
  old_count = 0;
  new_start = 1;
  new_count = 1;
  old_seen = 0;
  new_seen = 1;
  lines =
      record { kind = PatchLineKind.added; old_line = none; new_line = some 1; content = codes "y" }
      ∷ [];
}

abbrev ordinary_state : Parsing
ordinary_state = record {
  files = [];
  file = some (new_file (some (codes "x")) (some (codes "x")));
  hunk = some ordinary_hunk;
}

ordinary_before_run : parse_lines ordinary_before initial ≡ ok ordinary_state
unfolding parse_lines bytes_eq
ordinary_before_run = refl

ordinary_lines :
    lines ordinary_text
    ≡ ordinary_before
      ++ ((codes "--- " ++ codes "a/z") ∷ codes "+++ b/z" ∷ codes "@@ -0,0 +1 @@" ∷ codes "+y" ∷ [])
unfolding lines
ordinary_lines = refl

parse_patch-next_file_example :
    (parse_lines
        (ordinary_before ++ ((codes "--- " ++ codes "a/z") ∷ (codes "+++ " ++ codes "b/z") ∷ []))
        initial
      ≡ ok (record ordinary_state {
        hunk = some (
            pushed PatchLineKind.added
              (codes "++ " ++ codes "b/z")
              (pushed removed (codes "-- " ++ codes "a/z") ordinary_hunk));
      }))
    × (parse_patch ordinary_text ≡ err hunk_count_mismatch)
parse_patch-next_file_example =
    parse_patch-next_file ordinary_text (codes "a/z") (codes "b/z") (codes "-0,0 +1 @@")
      ordinary_before (codes "+y" ∷ []) ordinary_state ordinary_hunk ordinary_lines
      ordinary_before_run refl refl

parse_patch-IsNumbered_example : All (λ f. All IsNumberedHunk f.hunks) git_patch.files
parse_patch-IsNumbered_example = parse_patch-IsNumbered git_text git_patch parse_patch_run

abbrev git_title : FilePatch → Text
git_title f = codes "a/src/a.rs b/src/a.rs"

git_title-IsLine : (f : FilePatch) → IsLine (git_title f)
git_title-IsLine f = omega arith

git_patch-IsPrintable : All IsPrintable git_patch.files
git_patch-IsPrintable = (
  record {
    agrees = is_modified (codes "src/a.rs") (codes "src/a.rs");
    old = omega arith;
    new = omega arith;
    hunks = (
      record {
        numbered = (refl, (refl, (refl, (refl, tt))));
        old_start = omega arith;
        new_start = omega arith;
        old_count = omega arith;
        new_count = omega arith;
        contents = (omega arith, (omega arith, (omega arith, (omega arith, tt))));
      },
      tt,
    );
  },
  tt,
)

parse_patch-print_patch_example : parse_patch (print_patch git_title git_patch) ≡ ok git_patch
parse_patch-print_patch_example =
    parse_patch-print_patch git_title git_patch git_title-IsLine git_patch-IsPrintable

-- A quoted path keeps its prefix.
quoted_run : parse_git_path (codes "\"a/x\\\"y\"") ≡ some (codes "a/x\"y")
unfolding parse_git_path
quoted_run = refl
