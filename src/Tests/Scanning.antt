-- ===== src/Tests/Scanning.antt =====
-- A patch that is scanned.
use blindfold.Prelude.{
  ◌≡◌, refl, none, some, List, [], ◌∷◌, codes, All, Memᴰ, if◌then◌else◌, bytes_eq,
}
use blindfold.Core.SafeRef.{Text}
use blindfold.Diff.Patch.{
  modified, context, removed, PatchLineKind, PatchLine, Hunk, FilePatch, Patch, ok,
}
use blindfold.Diff.Parser.{parse_patch}
use blindfold.Diff.Scan.Paths.{environment_file, continuous_integration, classify_path}
use blindfold.Diff.Scan.{
  ScanOutcome, medium, high, environment_secret, Detection, Detector, Finding, added_line,
  finding_of, scan_with,
}
use blindfold.Diff.Scan.Located.{IsAtLine, scan_with-IsAtLine}
use blindfold.Diff.Scan.Complete.{IsScanned, scan_with-finds}

abbrev env_text : Text
env_text =
    codes
      "diff --git a/.env b/.env\n--- a/.env\n+++ b/.env\n@@ -7,2 +7,3 @@\n A=1\n-B=2\n+KEY=raw\n+C=3\n"

abbrev key_line : PatchLine
key_line = record {
  kind = PatchLineKind.added;
  old_line = none;
  new_line = some 8;
  content = codes "KEY=raw";
}

abbrev env_front : List PatchLine
env_front =
    record { kind = context; old_line = some 7; new_line = some 7; content = codes "A=1" }
    ∷ record { kind = removed; old_line = some 8; new_line = none; content = codes "B=2" }
    ∷ []

abbrev env_behind : List PatchLine
env_behind =
    record { kind = PatchLineKind.added; old_line = none; new_line = some 9; content = codes "C=3" }
    ∷ []

abbrev env_hunk : Hunk
env_hunk = record {
  old_start = 7;
  new_start = 7;
  lines =
      record { kind = context; old_line = some 7; new_line = some 7; content = codes "A=1" }
      ∷ record { kind = removed; old_line = some 8; new_line = none; content = codes "B=2" }
      ∷ key_line
      ∷ env_behind;
}

abbrev env_file : FilePatch
env_file = record {
  old_path = some (codes ".env");
  new_path = some (codes ".env");
  change = modified;
  hunks = env_hunk ∷ [];
}

abbrev env_patch : Patch
env_patch = record { files = env_file ∷ [] }

env_run : parse_patch env_text ≡ ok env_patch
unfolding parse_patch bytes_eq
env_run = refl

abbrev key_detection : Detection
key_detection = record {
  rule_id = codes "KEY";
  category = environment_secret;
  severity = medium;
  column = 5;
  message = codes "a key";
  remediation = codes "remove it";
}

abbrev detect_key : Detector
detect_key a = if bytes_eq a.content (codes "KEY=raw") then key_detection ∷ [] else []

abbrev key_finding : Finding
key_finding = record {
  rule_id = codes "KEY";
  category = environment_secret;
  severity = high;
  path = codes ".env";
  line = 8;
  column = 5;
  context_start = 7;
  context_end = 9;
  path_risk = environment_file;
  message = codes "a key";
  remediation = codes "remove it";
}

scan_with_run : scan_with detect_key env_patch ≡ record {
  outcome = ScanOutcome.findings;
  files_examined = 1;
  added_lines_scanned = 2;
  binary_files_skipped = 0;
  findings = key_finding ∷ [];
}
unfolding scan_with bytes_eq
scan_with_run = refl

classify_run : classify_path (codes "a\\.GitHub\\workflows\\x.yml") ≡ continuous_integration
unfolding classify_path bytes_eq
classify_run = refl

scan_with-IsAtLine_example :
    All (IsAtLine detect_key env_text env_patch env_run) (scan_with detect_key env_patch).findings
scan_with-IsAtLine_example = scan_with-IsAtLine detect_key env_text env_patch env_run

key_place : IsScanned env_patch (codes ".env") env_hunk env_front key_line 8
key_place = record {
  file = env_file;
  in_patch = Memᴰ.head refl;
  is_text = λ e. cc;
  named = refl;
  in_file = Memᴰ.head refl;
  after = env_behind;
  splits = refl;
  is_added = refl;
  numbered = refl;
}

key_detected :
    Memᴰ key_detection (detect_key (added_line (codes ".env") env_hunk.lines 2 (codes "KEY=raw") 8))
unfolding bytes_eq
key_detected = Memᴰ.head refl

scan_with-finds_example :
    Memᴰ
      (finding_of (added_line (codes ".env") env_hunk.lines 2 (codes "KEY=raw") 8) key_detection)
      (scan_with detect_key env_patch).findings
scan_with-finds_example =
    scan_with-finds detect_key env_patch (codes ".env") env_hunk env_front key_line 8 key_detection
      key_place key_detected
