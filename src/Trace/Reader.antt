-- ===== src/Trace/Reader.antt =====
-- crates/blindfold-trace/src/lib.rs: `read_path` and `read_all`. Reading changes no file.
pub mod Lines
pub mod Laws
use blindfold.Prelude.Selection.{filter}
use blindfold.Prelude.{
  ℕ, zero, suc, Bool, true, false, Option, none, some, List, [], ◌∷◌, ◌++◌, ltb, ◌==◌,
  if◌then◌else◌, length,
}
use blindfold.Trace.Record.{Bytes, Error, storage_unavailable, Record, validate, is_filled}
use blindfold.Trace.Store.{Entry, missing, symlink, present, Files, Result, ok, err, Json, Store}

abbrev pub first_byte : ℕ → List Bytes → List Bytes
first_byte b [] = (b ∷ []) ∷ []
first_byte b (line ∷ lines) = (b ∷ line) ∷ lines

-- `split(|byte| *byte == b'\n')`
unfoldable pub split : Bytes → List Bytes
split [] = [] ∷ []
split (b ∷ bytes) = if b == 10 then [] ∷ split bytes else first_byte b (split bytes)

abbrev pub both : Result (List Record) → Result (List Record) → Result (List Record)
both (ok xs) (ok ys) = ok (xs ++ ys)
both (ok xs) (err e) = err e
both (err e) other = err e

-- A line that is read has to be valid.
abbrev pub accept : Record → Option Error → Result (List Record)
accept r none = ok (r ∷ [])
accept r (some e) = err storage_unavailable

abbrev pub accept_parsed : Option Record → Result (List Record)
accept_parsed none = err storage_unavailable
accept_parsed (some r) = accept r (validate r)

module _ (json : Json) where
  unfoldable pub read_lines : List Bytes → Result (List Record)
  unfolding validate
  read_lines [] = ok []
  read_lines (line ∷ lines) = both (accept_parsed (json.from_slice line)) (read_lines lines)

  -- `read_path`
  unfoldable pub read_entry : ℕ → Entry → Result (List Record)
  unfolding read_lines split filter
  read_entry max_bytes missing = ok []
  read_entry max_bytes symlink = err storage_unavailable
  read_entry max_bytes (present bytes) =
      if ltb max_bytes (length bytes)
      then err storage_unavailable
      else read_lines (filter is_filled (split bytes))

  -- The generations from `n` down to 0.
  unfoldable pub read_from : ℕ → ℕ → Files → Result (List Record)
  unfolding read_entry
  read_from max_bytes zero files = read_entry max_bytes (files 0)
  read_from max_bytes (suc n) files =
      both (read_entry max_bytes (files (suc n))) (read_from max_bytes n files)

  unfoldable pub read_all : Store → Files → Result (List Record)
  unfolding read_from
  read_all s files = read_from s.max_bytes s.retained_files files
