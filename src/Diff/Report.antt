-- ===== src/Diff/Report.antt =====
-- crates/blindfold-diff/src/scan.rs: how a report is written, as text and as JSON.
pub mod Escaping
use blindfold.Prelude.{
  ℕ, ◌+◌, ◌/◌, ◌%◌, Bool, true, false, List, [], ◌∷◌, ◌++◌, leb, ltb, ◌==◌, if◌then◌else◌, codes,
}
use blindfold.Prelude.Decimal.{decimal}
use blindfold.Core.SafeRef.{Text}
use blindfold.Diff.Scan.Paths.{
  PathRisk, normal, frontend_public, environment_file, continuous_integration, fixture,
}
use blindfold.Diff.Scan.{
  ScanOutcome, findings, clean, no_text_changes, Severity, medium, high, critical, FindingCategory,
  credential_assignment, provider_token, private_key, credential_url, environment_secret, Finding,
  Report,
}

unfoldable pub outcome_text : ScanOutcome → Text
outcome_text findings = codes "findings"
outcome_text clean = codes "clean"
outcome_text no_text_changes = codes "no_text_changes"

unfoldable pub severity_text : Severity → Text
severity_text medium = codes "medium"
severity_text high = codes "high"
severity_text critical = codes "critical"

unfoldable pub category_text : FindingCategory → Text
category_text credential_assignment = codes "credential_assignment"
category_text provider_token = codes "provider_token"
category_text private_key = codes "private_key"
category_text credential_url = codes "credential_url"
category_text environment_secret = codes "environment_secret"

unfoldable pub risk_text : PathRisk → Text
risk_text normal = codes "normal"
risk_text frontend_public = codes "frontend_public"
risk_text environment_file = codes "environment_file"
risk_text continuous_integration = codes "continuous_integration"
risk_text fixture = codes "fixture"

-- A digit below 16 in `{:x}`
unfoldable pub hex_digit : ℕ → ℕ
hex_digit n = if ltb n 10 then n + 48 else n + 87

-- A control character is below 32, so `{:04x}` of it has two zeros in front.
abbrev pub escape_char : ℕ → Text
escape_char c =
    if c == 34
    then 92 ∷ 34 ∷ []
    else if c == 92
    then 92 ∷ 92 ∷ []
    else if c == 10
    then 92 ∷ 110 ∷ []
    else if c == 13
    then 92 ∷ 114 ∷ []
    else if c == 9
    then 92 ∷ 116 ∷ []
    else if leb c 31
    then 92 ∷ 117 ∷ 48 ∷ 48 ∷ hex_digit (c / 16) ∷ hex_digit (c % 16) ∷ []
    else c ∷ []

unfoldable pub escape_json : Text → Text
unfolding hex_digit
escape_json [] = []
escape_json (c ∷ text) = escape_char c ++ escape_json text

-- The pieces of a `write!`, one after the other.
unfoldable pub concat : List Text → Text
concat [] = []
concat (piece ∷ pieces) = piece ++ concat pieces

finding_line : Finding → Text
unfolding concat decimal severity_text
finding_line f = concat (
    f.path
    ∷ codes ":"
    ∷ decimal f.line
    ∷ codes ":"
    ∷ decimal f.column
    ∷ codes " ["
    ∷ severity_text f.severity
    ∷ codes "] "
    ∷ f.rule_id
    ∷ codes ": "
    ∷ f.message
    ∷ codes " Remediation: "
    ∷ f.remediation
    ∷ codes "\n"
    ∷ [])

finding_lines : List Finding → Text
unfolding finding_line
finding_lines [] = []
finding_lines (f ∷ fs) = finding_line f ++ finding_lines fs

unfoldable pub to_text : Report → Text
unfolding finding_lines outcome_text
to_text r = concat (
    codes "outcome="
    ∷ outcome_text r.outcome
    ∷ codes " files="
    ∷ decimal r.files_examined
    ∷ codes " added_lines="
    ∷ decimal r.added_lines_scanned
    ∷ codes " binary_files_skipped="
    ∷ decimal r.binary_files_skipped
    ∷ codes "\n"
    ∷ finding_lines r.findings
    ∷ [])

unfoldable pub finding_json : Finding → Text
unfolding concat decimal escape_json severity_text category_text risk_text
finding_json f = concat (
    codes "{\"rule_id\":\""
    ∷ escape_json f.rule_id
    ∷ codes "\",\"category\":\""
    ∷ category_text f.category
    ∷ codes "\",\"severity\":\""
    ∷ severity_text f.severity
    ∷ codes "\",\"path\":\""
    ∷ escape_json f.path
    ∷ codes "\",\"line\":"
    ∷ decimal f.line
    ∷ codes ",\"column\":"
    ∷ decimal f.column
    ∷ codes ",\"context_start\":"
    ∷ decimal f.context_start
    ∷ codes ",\"context_end\":"
    ∷ decimal f.context_end
    ∷ codes ",\"path_risk\":\""
    ∷ risk_text f.path_risk
    ∷ codes "\",\"message\":\""
    ∷ escape_json f.message
    ∷ codes "\",\"remediation\":\""
    ∷ escape_json f.remediation
    ∷ codes "\"}"
    ∷ [])

-- The loop over the findings, with a comma in front of all but the first.
findings_json : Bool → List Finding → Text
unfolding finding_json
findings_json first [] = []
findings_json first (f ∷ fs) =
    (if first then [] else 44 ∷ []) ++ (finding_json f ++ findings_json false fs)

unfoldable pub to_json : Report → Text
unfolding findings_json outcome_text
to_json r = concat (
    codes "{\"schema_version\":1,\"outcome\":\""
    ∷ outcome_text r.outcome
    ∷ codes "\",\"files_examined\":"
    ∷ decimal r.files_examined
    ∷ codes ",\"added_lines_scanned\":"
    ∷ decimal r.added_lines_scanned
    ∷ codes ",\"binary_files_skipped\":"
    ∷ decimal r.binary_files_skipped
    ∷ codes ",\"findings\":["
    ∷ findings_json true r.findings
    ∷ codes "]}"
    ∷ [])
