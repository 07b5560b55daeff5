-- ===== src/Diff/Patch.antt =====
-- crates/blindfold-diff/src/patch.rs: the data of a patch, and what a section and a hunk are built
-- from while they are read. Sums of `usize` wrap around, as they do in a release build.
use blindfold.Prelude.{
  ℕ, ◌+◌, ◌^◌, ◌%◌, Bool, false, not, ◌||◌, Option, none, some, List, [], ◌∷◌, ◌++◌, ◌==◌,
  if◌then◌else◌,
}
use blindfold.Core.SafeRef.{Text}

pub data FileChange : Type 0 where
  added modified deleted renamed binary : FileChange

pub data PatchLineKind : Type 0 where
  context added removed : PatchLineKind

pub record PatchLine : Type 0 where
  pub kind : PatchLineKind
  pub old_line : Option ℕ
  pub new_line : Option ℕ
  pub content : Text

pub record Hunk : Type 0 where
  pub old_start : ℕ
  pub new_start : ℕ
  pub lines : List PatchLine

pub record FilePatch : Type 0 where
  pub old_path : Option Text
  pub new_path : Option Text
  pub change : FileChange
  pub hunks : List Hunk

pub record Patch : Type 0 where
  pub files : List FilePatch

pub data PatchError : Type 0 where
  hunk_without_file invalid_hunk_header invalid_hunk_line : PatchError
  hunk_count_mismatch no_file_sections : PatchError

pub data Result {ℓ} (A : Type ℓ) : Type ℓ where
  ok : A → Result A
  err : PatchError → Result A

infixl 5 ◌>>=◌
abbrev pub ◌>>=◌ {ℓ κ} : {A : Type ℓ} {B : Type κ} → Result A → (A → Result B) → Result B
ok a >>= k = k a
err e >>= k = err e

abbrev pub ok_or {ℓ} : {A : Type ℓ} → Option A → PatchError → Result A
ok_or none e = err e
ok_or (some a) e = ok a

pub record FileBuilder : Type 0 where
  pub old_path : Option Text
  pub new_path : Option Text
  pub renamed : Bool
  pub binary : Bool
  pub hunks : List Hunk

-- `FileBuilder::new`
abbrev pub new_file : Option Text → Option Text → FileBuilder
new_file old_path new_path = record {
  old_path = old_path;
  new_path = new_path;
  renamed = false;
  binary = false;
  hunks = [];
}

abbrev change_of_paths : Option Text → Option Text → FileChange
change_of_paths none new_path = FileChange.added
change_of_paths (some old) none = deleted
change_of_paths (some old) (some new) = modified

abbrev pub change_of : FileBuilder → FileChange
change_of b =
    if b.binary
    then binary
    else if b.renamed
    then renamed
    else change_of_paths b.old_path b.new_path

-- `FileBuilder::finish`
unfoldable pub finish_section : FileBuilder → FilePatch
finish_section b = record {
  old_path = b.old_path;
  new_path = b.new_path;
  change = change_of b;
  hunks = b.hunks;
}

pub record HunkBuilder : Type 0 where
  pub old_start : ℕ
  pub old_count : ℕ
  pub new_start : ℕ
  pub new_count : ℕ
  pub old_seen : ℕ
  pub new_seen : ℕ
  pub lines : List PatchLine

abbrev pub wrapping_add : ℕ → ℕ → ℕ
wrapping_add a b = (a + b) % 2 ^ 64

-- A line of each kind behind the lines that were read.
abbrev pub push_kind : PatchLineKind → Text → HunkBuilder → HunkBuilder
push_kind context content b = record b {
  old_seen = b.old_seen + 1;
  new_seen = b.new_seen + 1;
  lines =
      b.lines
      ++ (record {
        kind = context;
        old_line = some (wrapping_add b.old_start b.old_seen);
        new_line = some (wrapping_add b.new_start b.new_seen);
        content = content;
      }
          ∷ []);
}
push_kind PatchLineKind.added content b = record b {
  new_seen = b.new_seen + 1;
  lines =
      b.lines
      ++ (record {
        kind = PatchLineKind.added;
        old_line = none;
        new_line = some (wrapping_add b.new_start b.new_seen);
        content = content;
      }
          ∷ []);
}
push_kind removed content b = record b {
  old_seen = b.old_seen + 1;
  lines =
      b.lines
      ++ (record {
        kind = removed;
        old_line = some (wrapping_add b.old_start b.old_seen);
        new_line = none;
        content = content;
      }
          ∷ []);
}

-- `HunkBuilder::push`
unfoldable pub push : Text → HunkBuilder → Result HunkBuilder
push [] b = err invalid_hunk_line
push (c ∷ content) b =
    if c == 32
    then ok (push_kind context content b)
    else if c == 43
    then ok (push_kind PatchLineKind.added content b)
    else if c == 45
    then ok (push_kind removed content b)
    else err invalid_hunk_line

-- `HunkBuilder::finish`
unfoldable pub finish_lines : HunkBuilder → Result Hunk
finish_lines b =
    if not (b.old_seen == b.old_count) || not (b.new_seen == b.new_count)
    then err hunk_count_mismatch
    else ok (record { old_start = b.old_start; new_start = b.new_start; lines = b.lines })
