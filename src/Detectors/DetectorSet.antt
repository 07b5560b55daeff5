-- ===== src/Detectors/DetectorSet.antt =====
-- crates/blindfold-detectors/src/detector.rs: `DetectorSet` runs its detectors one after the other
-- on one list of findings, and resolves overlaps. The detectors themselves are arguments: what they
-- find is up to the regular expressions and validators of other crates.
use blindfold.Prelude.{◌<◌, List, [], ◌∷◌, All, All-map, All-mem}
use blindfold.Prelude.Sorting.{UnstableSort}
use blindfold.Detectors.Finding.{Finding}
use blindfold.Detectors.Overlap.{priority_le, position_le, resolve_overlaps}
use blindfold.Detectors.Overlap.Laws.{IsRun, resolve_overlaps-subset, resolve_overlaps-IsRun}
use blindfold.Detectors.Redaction.{Text}

-- `Detector::detect(input, &mut findings)`
abbrev pub Detector : Type 0
Detector = Text → List Finding → List Finding

unfoldable pub run_all : List Detector → Text → List Finding → List Finding
run_all [] input findings = findings
run_all (d ∷ detectors) input findings = run_all detectors input (d input findings)

module _ (by_priority : UnstableSort priority_le) (by_position : UnstableSort position_le) where
  unfoldable pub detect : List Detector → Text → List Finding
  unfolding run_all
  detect detectors input = resolve_overlaps by_priority by_position (run_all detectors input [])

-- A detector that adds only findings with a property.
abbrev pub Adds {κ} : (Finding → Type κ) → Text → Detector → Type κ
Adds P input d = (findings : List Finding) → All P findings → All P (d input findings)

run_all-All {κ} :
    (P : Finding → Type κ) (detectors : List Detector) (input : Text) (findings : List Finding)
    → All (Adds P input) detectors
    → All P findings
    → All P (run_all detectors input findings)
unfolding run_all
run_all-All P [] input findings adds h = h
run_all-All P (d ∷ detectors) input findings adds h =
    run_all-All P detectors input (d input findings) adds.1 (adds.0 findings h)

module _ (by_priority : UnstableSort priority_le) (by_position : UnstableSort position_le)
    (detectors : List Detector) (input : Text) where
  -- What every detector ensures of the findings that it adds holds of all findings of the set.
  pub detect-All {κ} :
      (P : Finding → Type κ)
      → All (Adds P input) detectors
      → All P (detect by_priority by_position detectors input)
  unfolding detect
  detect-All P adds =
      All-map _ _ (λ f m. All-mem P m (run_all-All P detectors input [] adds tt)) _
        (resolve_overlaps-subset by_priority by_position (run_all detectors input []))

  -- If every detector adds only findings whose span is not empty, what the set detects is
  -- ascending and free of overlaps.
  pub detect-IsRun :
      All (Adds (λ f. f.span.start < f.span.end) input) detectors
      → IsRun (detect by_priority by_position detectors input)
  unfolding detect
  detect-IsRun adds =
      resolve_overlaps-IsRun by_priority by_position (run_all detectors input [])
        (run_all-All _ detectors input [] adds tt)
