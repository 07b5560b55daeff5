-- ===== src/Diff/Builtin.antt =====
-- crates/blindfold-diff/src/scan.rs: the built-in detector.
pub mod Encoding
pub mod Masking
pub mod Tokens
pub mod Assignments
pub mod Blind
pub mod Bounds
use blindfold.Prelude.{ℕ, ◌+◌, Option, none, some, List, [], ◌∷◌, if◌then◌else◌, codes}
use blindfold.Core.SafeRef.{Text}
use blindfold.Diff.Patch.{Patch, Result, ok, ◌>>=◌}
use blindfold.Diff.Parser.{parse_patch}
use blindfold.Diff.Scan.Paths.{PathRisk, environment_file}
use blindfold.Diff.Scan.{
  medium, high, critical, credential_assignment, provider_token, private_key, credential_url,
  environment_secret, Detection, AddedLine, Detector, Report, scan_with,
}
use blindfold.Diff.Builtin.Masking.{mask_safe_refs}
use blindfold.Diff.Builtin.Tokens.{
  find_ascii_case_insensitive, credential_url_column, provider_token_column,
}
use blindfold.Diff.Builtin.Assignments as Assignments
use blindfold.Diff.Builtin.Assignments.{trim, is_placeholder, is_empty}

abbrev pub key_detection : ℕ → Detection
key_detection column = record {
  rule_id = codes "BF-DIFF-PRIVATE-KEY";
  category = private_key;
  severity = critical;
  column = column + 1;
  message = codes "private key material appears in an added line";
  remediation =
      codes "Remove the key, rotate it if real, and load it from an approved secret store.";
}

abbrev pub url_detection : ℕ → Detection
url_detection column = record {
  rule_id = codes "BF-DIFF-CREDENTIAL-URL";
  category = credential_url;
  severity = high;
  column = column;
  message = codes "a URL appears to contain embedded credentials";
  remediation =
      codes "Remove URL credentials and inject authentication through an approved secret store.";
}

abbrev pub token_detection : ℕ → Detection
token_detection column = record {
  rule_id = codes "BF-DIFF-PROVIDER-TOKEN";
  category = provider_token;
  severity = high;
  column = column;
  message = codes "a provider-shaped token appears in an added line";
  remediation =
      codes "Remove and rotate the token, then reference it through an approved secret store.";
}

abbrev literal_remediation : Text
literal_remediation =
    codes "Replace the literal with a secret reference or runtime environment lookup."

abbrev pub assignment_detection : PathRisk → ℕ → Detection
assignment_detection environment_file column = record {
  rule_id = codes "BF-DIFF-ENV-SECRET";
  category = environment_secret;
  severity = high;
  column = column;
  message = codes "an environment file assigns a likely secret";
  remediation = literal_remediation;
}
assignment_detection _ column = record {
  rule_id = codes "BF-DIFF-CREDENTIAL-ASSIGNMENT";
  category = credential_assignment;
  severity = medium;
  column = column;
  message = codes "a credential-like name is assigned a non-placeholder value";
  remediation = literal_remediation;
}

abbrev pub by_assignment : PathRisk → Option (ℕ × Text) → Option Detection
by_assignment risk none = none
by_assignment risk (some (column, value)) =
    if is_placeholder value then none else some (assignment_detection risk column)

abbrev pub by_token : PathRisk → Text → Option ℕ → Option Detection
by_token risk content (some column) = some (token_detection column)
by_token risk content none = by_assignment risk (Assignments.credential_assignment content)

abbrev pub by_url : PathRisk → Text → Option ℕ → Option Detection
by_url risk content (some column) = some (url_detection column)
by_url risk content none = by_token risk content (provider_token_column content)

abbrev pub by_key : PathRisk → Text → Option ℕ → Option Detection
by_key risk content (some column) = some (key_detection column)
by_key risk content none = by_url risk content (credential_url_column content)

-- The text that is looked at, with its references blanked.
unfoldable pub detect_masked : PathRisk → Text → Option Detection
unfolding find_ascii_case_insensitive credential_url_column provider_token_column is_placeholder
    Assignments.credential_assignment
detect_masked risk content =
    by_key risk content (find_ascii_case_insensitive content (codes "-----begin private key-----"))

unfoldable pub detect_builtin : AddedLine → Option Detection
unfolding trim mask_safe_refs detect_masked
detect_builtin line =
    let content = trim line.content in
    if is_empty content then none else detect_masked line.path_risk (mask_safe_refs content)

abbrev pub to_list : Option Detection → List Detection
to_list none = []
to_list (some d) = d ∷ []

-- `BuiltinDetector`
unfoldable pub builtin_detector : Detector
unfolding detect_builtin
builtin_detector line = to_list (detect_builtin line)

unfoldable pub scan_patch : Patch → Report
unfolding scan_with builtin_detector
scan_patch p = scan_with builtin_detector p

unfoldable pub scan : Text → Result Report
unfolding parse_patch scan_patch
scan input = do p ← parse_patch input; ok (scan_patch p)
