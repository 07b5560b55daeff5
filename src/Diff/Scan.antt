-- ===== src/Diff/Scan.antt =====
-- crates/blindfold-diff/src/scan.rs: `scan_with` over any detector.
pub mod Paths
pub mod Sources
pub mod Located
pub mod Complete
use blindfold.Prelude.{
  ℕ, zero, suc, ◌+◌, ◌-◌, ◌≤◌, min, max, Bool, true, false, not, ◌||◌, Option, none, some, List, [],
  ◌∷◌, ◌++◌, map, ◌==◌, if◌then◌else◌, length, take, drop,
}
use blindfold.Prelude.Selection.{filter}
use blindfold.Core.SafeRef.{Text}
use blindfold.Diff.Patch.{
  FileChange, added, modified, deleted, renamed, binary, PatchLineKind, context, removed, PatchLine,
  Hunk, FilePatch, Patch, wrapping_add,
}
use blindfold.Diff.Scan.Paths.{PathRisk, normal, classify_path}

pub data ScanOutcome : Type 0 where
  findings clean no_text_changes : ScanOutcome

pub data Severity : Type 0 where
  medium high critical : Severity

-- The derived order, by the order of declaration.
abbrev pub severity_rank : Severity → ℕ
severity_rank medium = 0
severity_rank high = 1
severity_rank critical = 2

pub data FindingCategory : Type 0 where
  credential_assignment provider_token private_key credential_url environment_secret :
      FindingCategory

pub record Detection : Type 0 where
  pub rule_id : Text
  pub category : FindingCategory
  pub severity : Severity
  pub column : ℕ
  pub message : Text
  pub remediation : Text

pub record AddedLine : Type 0 where
  pub path : Text
  pub line : ℕ
  pub content : Text
  pub before : List Text
  pub after : List Text
  pub path_risk : PathRisk

-- A `Detector`
abbrev pub Detector : Type 0
Detector = AddedLine → List Detection

pub record Finding : Type 0 where
  pub rule_id : Text
  pub category : FindingCategory
  pub severity : Severity
  pub path : Text
  pub line : ℕ
  pub column : ℕ
  pub context_start : ℕ
  pub context_end : ℕ
  pub path_risk : PathRisk
  pub message : Text
  pub remediation : Text

pub record Report : Type 0 where
  pub outcome : ScanOutcome
  pub files_examined : ℕ
  pub added_lines_scanned : ℕ
  pub binary_files_skipped : ℕ
  pub findings : List Finding

abbrev pub is_normal : PathRisk → Bool
is_normal normal = true
is_normal _ = false

abbrev pub raise : Severity → Severity
raise medium = high
raise _ = critical

unfoldable pub elevate : Severity → PathRisk → Severity
elevate severity risk = if is_normal risk then severity else raise severity

abbrev pub is_removed : PatchLine → Bool
is_removed line = elim line.kind [ removed ↦ true | _ ↦ false ]

abbrev contents_of : List PatchLine → List Text
contents_of lines =
    map (λ (line : PatchLine). line.content) (filter (λ line. not (is_removed line)) lines)

unfoldable pub nearby_before : List PatchLine → ℕ → List Text
unfolding filter
nearby_before lines index = contents_of (drop (index - 2) (take index lines))

unfoldable pub nearby_after : List PatchLine → ℕ → List Text
unfolding filter
nearby_after lines index =
    contents_of (drop (index + 1) (take (min (length lines) (index + 3)) lines))

abbrev pub finding_of : AddedLine → Detection → Finding
finding_of a d = record {
  rule_id = d.rule_id;
  category = d.category;
  severity = elevate d.severity a.path_risk;
  path = a.path;
  line = a.line;
  column = max d.column 1;
  context_start = a.line - length a.before;
  context_end = wrapping_add a.line (length a.after);
  path_risk = a.path_risk;
  message = d.message;
  remediation = d.remediation;
}

-- The variables of `scan_with`.
pub record Scanning : Type 0 where
  pub found : List Finding
  pub added_lines_scanned : ℕ
  pub binary_files_skipped : ℕ

abbrev pub added_line : Text → List PatchLine → ℕ → Text → ℕ → AddedLine
added_line path lines index content number = record {
  path = path;
  line = number;
  content = content;
  before = nearby_before lines index;
  after = nearby_after lines index;
  path_risk = classify_path path;
}

abbrev pub outcome_of : List Finding → ℕ → ScanOutcome
outcome_of [] scanned = if scanned == 0 then no_text_changes else clean
outcome_of (f ∷ fs) scanned = findings

abbrev pub nothing_scanned : Scanning
nothing_scanned = record { found = []; added_lines_scanned = 0; binary_files_skipped = 0 }

module _ (detect : Detector) where
  abbrev pub inspect : AddedLine → Scanning → Scanning
  inspect a s = record s {
    found = s.found ++ map (finding_of a) (detect a);
    added_lines_scanned = s.added_lines_scanned + 1;
  }

  abbrev pub numbered_line : Text → List PatchLine → ℕ → Text → Option ℕ → Scanning → Scanning
  numbered_line path lines index content none s = s
  numbered_line path lines index content (some number) s =
      inspect (added_line path lines index content number) s

  abbrev pub line_of_kind :
      Text → List PatchLine → ℕ → PatchLine → PatchLineKind → Scanning → Scanning
  line_of_kind path lines index line PatchLineKind.added s =
      numbered_line path lines index line.content line.new_line s
  line_of_kind path lines index line _ s = s

  -- The loop over the lines of a hunk, from an index on.
  unfoldable pub scan_lines : Text → List PatchLine → ℕ → List PatchLine → Scanning → Scanning
  unfolding elevate nearby_before nearby_after classify_path
  scan_lines path lines index [] s = s
  scan_lines path lines index (line ∷ rest) s =
      scan_lines path lines (index + 1) rest (line_of_kind path lines index line line.kind s)

  unfoldable pub scan_hunks : Text → List Hunk → Scanning → Scanning
  unfolding scan_lines
  scan_hunks path [] s = s
  scan_hunks path (hunk ∷ hunks) s =
      scan_hunks path hunks (scan_lines path hunk.lines 0 hunk.lines s)

  abbrev pub scan_path : List Hunk → Option Text → Scanning → Scanning
  scan_path hunks none s = s
  scan_path hunks (some path) s = scan_hunks path hunks s

  abbrev pub scan_change : FilePatch → FileChange → Scanning → Scanning
  scan_change file binary s = record s { binary_files_skipped = s.binary_files_skipped + 1 }
  scan_change file _ s = scan_path file.hunks file.new_path s

  unfoldable pub scan_files : List FilePatch → Scanning → Scanning
  unfolding scan_hunks
  scan_files [] s = s
  scan_files (file ∷ files) s = scan_files files (scan_change file file.change s)

  unfoldable pub scan_with : Patch → Report
  unfolding scan_files
  scan_with p =
      let s = scan_files p.files nothing_scanned in
      record {
        outcome = outcome_of s.found s.added_lines_scanned;
        files_examined = length p.files;
        added_lines_scanned = s.added_lines_scanned;
        binary_files_skipped = s.binary_files_skipped;
        findings = s.found;
      }
