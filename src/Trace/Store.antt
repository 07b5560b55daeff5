-- ===== src/Trace/Store.antt =====
-- crates/blindfold-trace/src/lib.rs: the rotating store. A file of the store is known by its
-- generation: 0 is the active file, and n is `rotated_path(path, n)`. The operating system is taken
-- to fail only as the cases below say; the lock file keeps other processes out.
pub mod Steps
pub mod Links
pub mod Entries
pub mod Rotation
pub mod Bounds
pub mod Clearing
use blindfold.Prelude.{
  ◌||◌, ℕ, zero, suc, ◌+◌, ◌-◌, ◌^◌, min, Bool, true, false, not, ◌&&◌, Option, none, some, List,
  [], ◌∷◌, ◌++◌, ltb, leb, ◌==◌, if◌then◌else◌, length,
}
use blindfold.Trace.Record.{
  Bytes, Error, invalid_input, storage_unavailable, Record, validate, is_filled,
}

pub data Entry : Type 0 where
  missing symlink : Entry
  present : Bytes → Entry

abbrev pub Files : Type 0
Files = ℕ → Entry

unfoldable pub put : Files → ℕ → Entry → Files
put files generation entry k = if k == generation then entry else files k

pub data Result (A : Type 0) : Type 0 where
  ok : A → Result A
  err : Error → Result A

-- What an operation leaves in the files, and what it returns.
abbrev pub Step : Type 0 → Type 0
Step A = Files → Files × Result A

abbrev pub pure : {A : Type 0} → A → Step A
pure a files = (files, ok a)

abbrev pub fail : {A : Type 0} → Error → Step A
fail e files = (files, err e)

abbrev pub continue : {A B : Type 0} → (A → Step B) → Files × Result A → Files × Result B
continue k (files, ok a) = k a files
continue k (files, err e) = (files, err e)

infixl 5 ◌>>=◌
abbrev pub ◌>>=◌ : {A B : Type 0} → Step A → (A → Step B) → Step B
(m >>= k) files = continue k (m files)

infixl 5 ◌>>◌
abbrev pub ◌>>◌ : {A B : Type 0} → Step A → Step B → Step B
m >> n = m >>= λ a. n

abbrev pub look : Entry → Result (Option Bytes)
look missing = ok none
look symlink = err storage_unavailable
look (present bytes) = ok (some bytes)

-- `reject_symlink`, with what the file that is there has in it
unfoldable pub reject_symlink : ℕ → Step (Option Bytes)
reject_symlink generation files = (files, look (files generation))

abbrev pub remove_entry : Files → ℕ → Entry → Files × Result Bool
remove_entry files generation missing = (files, ok false)
remove_entry files generation _ = (put files generation missing, ok true)

-- `fs::remove_file`, where `NotFound` is `false`
unfoldable pub remove_file : ℕ → Step Bool
unfolding put
remove_file generation files = remove_entry files generation (files generation)

abbrev pub move_entry : Files → ℕ → ℕ → Entry → Files × Result Bool
move_entry files source destination missing = (files, ok false)
move_entry files source destination entry =
    (put (put files destination entry) source missing, ok true)

-- `fs::rename`
unfoldable pub rename : ℕ → ℕ → Step Bool
unfolding put
rename source destination files = move_entry files source destination (files source)

-- The loop of `rotate`, over the generations from `n` down to 1.
unfoldable pub shift : ℕ → Step Unit
unfolding reject_symlink rename
shift zero = pure tt
shift (suc n) = do
  reject_symlink (suc n)
  reject_symlink (suc (suc n))
  rename (suc n) (suc (suc n))
  shift n

abbrev pub must_move : Bool → Step Unit
must_move true = pure tt
must_move false = fail storage_unavailable

-- The last step of `rotate`.
unfoldable pub move_active : Step Unit
unfolding reject_symlink rename
move_active = do reject_symlink 0; reject_symlink 1; moved ← rename 0 1; must_move moved

unfoldable pub rotate : ℕ → Step Unit
unfolding reject_symlink remove_file shift move_active
rotate retained_files = do
  reject_symlink retained_files
  remove_file retained_files
  shift (retained_files - 1)
  move_active

-- `serde_json::to_string` and `serde_json::from_slice`
pub record Json : Type 0 where
  pub to_json : Record → Option Bytes
  pub from_slice : Bytes → Option Record

pub record Store : Type 0 where
  pub max_bytes : ℕ
  pub retained_files : ℕ

-- `Store::open`, without the directory above the files.
unfoldable pub open_store : ℕ → ℕ → Step Store
unfolding reject_symlink
open_store max_bytes retained_files =
    if max_bytes == 0 || retained_files == 0 then fail invalid_input else (do
      reject_symlink 0
      pure (record { max_bytes = max_bytes; retained_files = retained_files }))

abbrev pub u64_max : ℕ
u64_max = 2 ^ 64 - 1

abbrev pub size_of : Option Bytes → ℕ
size_of none = 0
size_of (some bytes) = length bytes

abbrev pub content_of : Option Bytes → Bytes
content_of none = []
content_of (some bytes) = bytes

-- The active file is not empty, and the line does not fit behind what it has.
unfoldable pub is_full : Store → Option Bytes → ℕ → Bool
is_full s current line_len =
    not (size_of current == 0) && ltb s.max_bytes (min (size_of current + line_len) u64_max)

abbrev pub rotate_if : Bool → ℕ → Step Unit
rotate_if true retained_files = rotate retained_files
rotate_if false retained_files = pure tt

abbrev pub write_behind : Bytes → Option Bytes → Step Unit
write_behind line old files = (put files 0 (present (content_of old ++ (line ++ 10 ∷ []))), ok tt)

-- The line goes behind what is in the active file, which is made if it is missing.
unfoldable pub write_line : Bytes → Step Unit
unfolding reject_symlink put
write_line line = do old ← reject_symlink 0; write_behind line old

unfoldable pub append_fitting : Store → Bytes → Step Unit
unfolding reject_symlink is_full rotate write_line
append_fitting s line = do
  current ← reject_symlink 0
  rotate_if (is_full s current (length line + 1)) s.retained_files
  write_line line

-- `append`, with the line that the record is written as
unfoldable pub append_line : Store → Bytes → Step Unit
unfolding append_fitting
append_line s line =
    if ltb u64_max (length line + 1) || ltb s.max_bytes (length line + 1)
    then fail invalid_input
    else append_fitting s line

abbrev pub append_json : Store → Option Bytes → Step Unit
append_json s none = fail storage_unavailable
append_json s (some line) = append_line s line

abbrev pub append_valid : Store → Option Bytes → Option Error → Step Unit
append_valid s line (some e) = fail e
append_valid s line none = append_json s line

unfoldable pub append : Json → Store → Record → Step Unit
unfolding append_line validate
append json s r = append_valid s (json.to_json r) (validate r)

abbrev pub one_more : Bool → ℕ → ℕ
one_more true removed = suc removed
one_more false removed = removed

-- The loop of `clear`, over `left` generations from `generation` up.
unfoldable pub clear_from : ℕ → ℕ → ℕ → Step ℕ
unfolding reject_symlink remove_file
clear_from zero generation removed = pure removed
clear_from (suc left) generation removed = do
  reject_symlink generation
  gone ← remove_file generation
  clear_from left (suc generation) (one_more gone removed)

unfoldable pub clear : Store → Step ℕ
unfolding clear_from
clear s = clear_from (suc s.retained_files) 0 0
