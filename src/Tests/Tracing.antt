-- ===== src/Tests/Tracing.antt =====
-- A store of two retained files of at most four bytes, in which every line takes three.
use blindfold.Prelude.{zero, suc, ◌≡◌, ◌↔◌, refl, arith, inr, none, some, [], ◌∷◌, ◌++◌, codes}
use blindfold.Trace.Record.{
  Bytes, invalid_input, storage_unavailable, open_ai, protected, succeeded, password, Replacement,
  Record, validate, validate_replacement,
}
use blindfold.Trace.Record.Schema.{IsValid, validate_iff}
use blindfold.Trace.Store.{
  missing, symlink, present, Files, ok, err, Json, Store, append, clear, open_store,
}
use blindfold.Trace.Store.Links.{append-symlink}
use blindfold.Trace.Store.Entries.{NoLinks}
use blindfold.Trace.Store.Bounds.{
  Bounded, IsUsable, IsHealthy, Appended, append-Appended, append-IsHealthy,
}
use blindfold.Trace.Store.Clearing.{Cleared, clear-Cleared}
use blindfold.Trace.Reader.{read_all, read_entry}
use blindfold.Trace.Reader.Lines.{IsWritten}
use blindfold.Trace.Reader.Laws.{Grown, read_all-append}

abbrev sample_replacement : Replacement
sample_replacement = record {
  id = codes "S1";
  category = password;
  pointer = codes "/messages/0/content";
  occurrences = 2;
}

abbrev sample_record : Record
sample_record = record {
  version = 1;
  timestamp = 1700000000;
  request_id = codes "req_1a_2";
  route = open_ai;
  coverage = protected;
  outcome = succeeded;
  request_bytes_before = 100;
  request_bytes_after = 90;
  response_bytes_before = 10;
  response_bytes_after = 10;
  replacements = sample_replacement ∷ [];
  issue = none;
}

valid_run : validate sample_record ≡ none
unfolding validate
valid_run = refl

-- A payload does not fit into a pointer.
payload_run :
    validate_replacement (record sample_replacement { pointer = codes "/a b" }) ≡ some invalid_input
unfolding validate_replacement
payload_run = refl

abbrev sample_line : Bytes
sample_line = codes "{}"

abbrev sample_json : Json
sample_json = record { to_json = λ r. some sample_line; from_slice = λ line. some sample_record }

abbrev sample_store : Store
sample_store = record { max_bytes = 4; retained_files = 2 }

abbrev sample_files : Files
sample_files zero = present (codes "{}" ++ 10 ∷ [])
sample_files (suc zero) = present (codes "{}" ++ 10 ∷ [])
sample_files (suc (suc k)) = missing

abbrev linked_files : Files
linked_files zero = symlink
linked_files (suc k) = missing

sample_clean : NoLinks 2 sample_files
sample_clean zero p q = cc
sample_clean (suc zero) p q = cc
sample_clean (suc (suc k)) p q = cc

sample-Bounded : Bounded sample_store sample_files
sample-Bounded zero = omega arith
sample-Bounded (suc zero) = omega arith
sample-Bounded (suc (suc k)) = omega arith

sample-IsUsable : IsUsable sample_store 1
sample-IsUsable = record { retained = refl; measured = omega arith }

sample-IsWritten : IsWritten sample_json sample_record sample_line
sample-IsWritten = record {
  written = refl;
  parsed = refl;
  valid = valid_run;
  filled = λ e. cc;
  one_line = (λ e. absurd (omega arith), (λ e. absurd (omega arith), tt));
}

read_run : read_all sample_json sample_store sample_files ≡ ok (sample_record ∷ sample_record ∷ [])
unfolding read_all
read_run = refl

refused_run :
    (append sample_json sample_store sample_record linked_files).1 ≡ err storage_unavailable
unfolding append
refused_run = refl

no_limit_run : (open_store 0 2 sample_files).1 ≡ err invalid_input
unfolding open_store
no_limit_run = refl

validate_iff_example : (validate sample_record ≡ none) ↔ IsValid sample_record
validate_iff_example = validate_iff sample_record

append-symlink_example : (append sample_json sample_store sample_record linked_files).0 0 ≡ symlink
append-symlink_example = append-symlink sample_store linked_files 0 refl sample_json sample_record

append-Appended_example :
    Appended sample_store 1 sample_line sample_files
      (append sample_json sample_store sample_record sample_files)
append-Appended_example =
    append-Appended sample_json sample_store 1 sample-IsUsable sample_record sample_line valid_run
      refl (omega arith) sample_files sample_clean

append-IsHealthy_example :
    IsHealthy sample_store 1 (append sample_json sample_store sample_record sample_files).0
append-IsHealthy_example =
    append-IsHealthy sample_json sample_store 1 sample-IsUsable sample_record sample_line valid_run
      refl (omega arith) sample_files sample_clean sample-Bounded

read_all-append_example :
    Grown (sample_record ∷ sample_record ∷ []) (read_entry sample_json 4 missing) sample_record (
      read_all sample_json sample_store
        (append sample_json sample_store sample_record sample_files).0)
read_all-append_example =
    read_all-append sample_json sample_store 1 sample-IsUsable sample_record sample_line
      sample-IsWritten (omega arith) sample_files sample_clean (inr (codes "{}", refl))
      (sample_record ∷ sample_record ∷ []) read_run

clear-Cleared_example : Cleared 3 0 0 sample_files (clear sample_store sample_files)
clear-Cleared_example = clear-Cleared sample_store sample_files sample_clean
