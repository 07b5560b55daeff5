-- ===== src/Tests/Redacting.antt =====
-- Two overlapping findings in a line, and one that stands alone.
use blindfold.Prelude.{true, ◌≡◌, refl, arith, none, some, List, [], ◌∷◌, All, codes}
use blindfold.Detectors.Finding.{password, api_key, token, high, certain, contextual, Finding}
use blindfold.Prelude.Sorting.{sort_by}
use blindfold.Detectors.Overlap.{resolve_overlaps, priority_le, position_le, then_by}
use blindfold.Detectors.Overlap.Order.{priority_sort, position_sort}
use blindfold.Detectors.Overlap.Greedy.{IsBeaten}
use blindfold.Detectors.Overlap.Laws.{IsRun, resolve_overlaps-IsRun, resolve_overlaps-IsBeaten}
use blindfold.Detectors.Redaction.{
  env_ref, Text, placeholder, RedactionOutput, ok, Outside, write_replacement, redact,
  is_char_boundary,
}
use blindfold.Detectors.Redaction.Weave.{Woven}
use blindfold.Detectors.Redaction.Laws.{by_placeholder, redact-blind, redact-total}
use blindfold.Detectors.DetectorSet.{Detector}

abbrev long_weak : Finding
long_weak = record {
  kind = token;
  span = record { start = 2; end = 9 };
  confidence = contextual;
  detector = "generic";
}

abbrev short_sure : Finding
short_sure = record {
  kind = password;
  span = record { start = 4; end = 7 };
  confidence = certain;
  detector = "password";
}

abbrev early : Finding
early = record {
  kind = api_key;
  span = record { start = 0; end = 3 };
  confidence = high;
  detector = "key";
}

abbrev sample_findings : List Finding
sample_findings = long_weak ∷ short_sure ∷ early ∷ []

resolve_run : resolve_overlaps priority_sort position_sort sample_findings ≡ early ∷ short_sure ∷ []
unfolding resolve_overlaps priority_sort position_sort sort_by priority_le then_by position_le
resolve_run = refl

resolve_overlaps-IsRun_example :
    IsRun (resolve_overlaps priority_sort position_sort sample_findings)
resolve_overlaps-IsRun_example =
    resolve_overlaps-IsRun priority_sort position_sort sample_findings
      (omega arith, (omega arith, (omega arith, tt)))

resolve_overlaps-IsBeaten_example :
    All (IsBeaten (resolve_overlaps priority_sort position_sort sample_findings)) sample_findings
resolve_overlaps-IsBeaten_example =
    resolve_overlaps-IsBeaten priority_sort position_sort sample_findings
      (omega arith, (omega arith, (omega arith, tt)))

abbrev sample_detectors : List Detector
sample_detectors =
    (λ input findings. short_sure ∷ findings) ∷ (λ input findings. early ∷ findings) ∷ []

-- No dotenv catalog, and no randomness.
abbrev no_outside : Outside
no_outside = record { keyed_hash = λ key text. text; random_key = none; dotenv = none }

abbrev sample_detect : Text → List Finding
sample_detect input = short_sure ∷ []

abbrev first_text : Text
first_text = codes "pwd=abc;"

abbrev second_text : Text
second_text = codes "pwd=xyz;"

abbrev hidden : RedactionOutput
hidden = record { text = codes "pwd=[REDACTED:password];"; findings = short_sure ∷ [] }

first_run : redact no_outside sample_detect first_text placeholder ≡ ok hidden
unfolding redact
first_run = refl

second_run : redact no_outside sample_detect second_text placeholder ≡ ok hidden
unfolding redact
second_run = refl

-- With a catalog, the name of a known value is written.
abbrev with_catalog : Outside
with_catalog = record no_outside {
  dotenv = some (record { by_value = (codes "abc", codes "DB_PASSWORD") ∷ [] });
}

env_ref_run :
    redact with_catalog sample_detect first_text env_ref
    ≡ ok (record { text = codes "pwd=${DB_PASSWORD};"; findings = short_sure ∷ [] })
unfolding redact
env_ref_run = refl

redact-blind_example : hidden.text ≡ hidden.text
redact-blind_example =
    redact-blind no_outside sample_detect first_text second_text hidden hidden by_placeholder refl
      refl (refl, refl) first_run second_run

first_start : is_char_boundary first_text 4 ≡ true
unfolding is_char_boundary
first_start = refl

first_end : is_char_boundary first_text 7 ≡ true
unfolding is_char_boundary
first_end = refl

redact-total_example :
    (out : RedactionOutput) × (redact no_outside sample_detect first_text placeholder ≡ ok out)
    × (out.findings ≡ short_sure ∷ [])
    × Woven (write_replacement no_outside placeholder none) 0 (short_sure ∷ []) first_text out.text
redact-total_example =
    redact-total no_outside sample_detect first_text by_placeholder (tt, tt)
      (
        record {
          nonempty = omega arith;
          inside = omega arith;
          starts = first_start;
          ends = first_end;
        },
        tt,
      )
