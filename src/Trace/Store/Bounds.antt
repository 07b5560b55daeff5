-- ===== src/Trace/Store/Bounds.antt =====
-- What `append` does to the files where none of them is a symbolic link, and that no file outgrows the
-- limit.
use mathlib.Core.List.{append_assoc}
use blindfold.Prelude.{
  ℕ, zero, suc, ◌+◌, ◌≤◌, ◌<◌, ◌≡◌, ◌≢◌, refl, sym, subst, ap, ◌∙◌, ◌⊎◌, inl, inr, arith, Bool,
  true, false, Option, none, some, ltb, ◌||◌, Bool-cases, [], ◌∷◌, ◌++◌, length, length-append,
}
use blindfold.Trace.Record.{Bytes, Record, validate}
use blindfold.Trace.Store.{
  Entry, missing, symlink, present, Files, put, Result, ok, Step, continue, ◌>>=◌, ◌>>◌,
  reject_symlink, rotate, Store, u64_max, is_full, size_of, content_of, rotate_if, write_behind,
  write_line, append_fitting, append_line, append, Json, append_valid,
}
use blindfold.Trace.Store.Entries.{put-same, put-other, NoLinks}
use blindfold.Trace.Store.Rotation.{rotate-Rotated}

-- What is found when a file that is no link is looked at.
abbrev pub found : Entry → Option Bytes
found missing = none
found symlink = none
found (present bytes) = some bytes

abbrev pub contents : Entry → Bytes
contents entry = content_of (found entry)

pass_found :
    {B : Type 0} (g : ℕ) (k : Option Bytes → Step B) (files : Files)
    → files g ≢ symlink
    → (reject_symlink g >>= k) files ≡ k (found (files g)) files
unfolding reject_symlink
pass_found g k files s = go (files g) refl
  where
    go : (e : Entry) → files g ≡ e → (reject_symlink g >>= k) files ≡ k (found (files g)) files
    go missing e = rw e
    go symlink e = absurd (s e)
    go (present bytes) e = rw e

-- A store whose limits `open` lets pass, and whose files can be measured.
pub record IsUsable (s : Store) (m : ℕ) : Type 0 where
  pub retained : s.retained_files ≡ suc m
  pub measured : s.max_bytes < u64_max

-- The two ways in which a line gets into the active file.
pub data Appended (s : Store) (m : ℕ) (line : Bytes) (files : Files) (out : Files × Result Unit)
    : Type 0 where
  behind :
      (next : Files)
      → out ≡ (next, ok tt)
      → next 0 ≡ present (contents (files 0) ++ (line ++ 10 ∷ []))
      → ((k : ℕ) → 0 < k → next k ≡ files k)
      → length (contents (files 0)) + (length line + 1) ≤ s.max_bytes
      → Appended s m line files out
  rotated :
      (next : Files)
      → out ≡ (next, ok tt)
      → next 0 ≡ present (line ++ 10 ∷ [])
      → ((k : ℕ) → k < suc m → next (suc k) ≡ files k)
      → ((k : ℕ) → suc m < k → next k ≡ files k)
      → s.max_bytes < length (contents (files 0)) + (length line + 1)
      → Appended s m line files out

length-contents : (o : Option Bytes) → length (content_of o) ≡ size_of o
length-contents none = refl
length-contents (some bytes) = refl

is_full-false :
    (s : Store) (o : Option Bytes) (n : ℕ)
    → s.max_bytes < u64_max
    → n ≤ s.max_bytes
    → is_full s o n ≡ false
    → size_of o + n ≤ s.max_bytes
unfolding is_full
is_full-false s o n u h f = ground (arith, u, h, f)

is_full-true :
    (s : Store) (o : Option Bytes) (n : ℕ)
    → is_full s o n ≡ true
    → (0 < size_of o) × (s.max_bytes < size_of o + n)
unfolding is_full
is_full-true s o n f = ground (arith, f)

size-there : (e : Entry) → 0 < size_of (found e) → e ≢ missing
size-there missing h q = absurd (omega arith)
size-there symlink h q = cc
size-there (present bytes) h q = cc

write_line_behind :
    (line : Bytes) (files : Files)
    → files 0 ≢ symlink
    → write_line line files
      ≡ (put files 0 (present (contents (files 0) ++ (line ++ 10 ∷ []))), ok tt)
unfolding write_line
write_line_behind line files s = pass_found 0 (write_behind line) files s

module _ (s : Store) (m : ℕ) (usable : IsUsable s m) (line : Bytes)
    (fits : length line + 1 ≤ s.max_bytes) (files : Files) (clean : NoLinks (suc m) files) where
  abbrev go_on : Bool → Step Unit
  go_on full = rotate_if full s.retained_files >> write_line line

  go_on-false :
      is_full s (found (files 0)) (length line + 1) ≡ false
      → Appended s m line files (go_on false files)
  go_on-false f =
      behind (put files 0 (present (contents (files 0) ++ (line ++ 10 ∷ []))))
        (write_line_behind line files (clean 0 (omega arith))) (put-same files 0 _)
        (λ k p. put-other files 0 k _ (λ e. absurd (omega arith)))
        (omega (
          arith,
          length-contents (found (files 0)),
          is_full-false s (found (files 0)) (length line + 1) usable.measured fits f,
        ))

  go_on-true :
      is_full s (found (files 0)) (length line + 1) ≡ true
      → Appended s m line files (go_on true files)
  go_on-true f =
      let (some_bytes, over) = is_full-true s (found (files 0)) (length line + 1) f in
      let r = rotate-Rotated m files clean (size-there (files 0) some_bytes) in
      let turned = ap (λ n. rotate n files) usable.retained ∙ r.returned in
      let empty : contents (r.next 0) ≡ [] = ap contents r.active in
      let written = write_line_behind line r.next (λ e. cc (e, r.active)) in
      let same : present (contents (r.next 0) ++ (line ++ 10 ∷ [])) ≡ present (line ++ 10 ∷ []) =
        ap (λ t. present (t ++ (line ++ 10 ∷ []))) empty in
      rotated (put r.next 0 (present (contents (r.next 0) ++ (line ++ 10 ∷ []))))
        (ap (continue (λ u. write_line line)) turned ∙ written) (put-same r.next 0 _ ∙ same)
        (λ k p. put-other r.next 0 (suc k) _ (λ e. absurd (omega arith)) ∙ r.moved k p)
        (λ k p. put-other r.next 0 k _ (λ e. absurd (omega arith)) ∙ r.high k p)
        (omega (arith, length-contents (found (files 0)), over))

  append_line-Appended : Appended s m line files (append_line s line files)
  unfolding append_line append_fitting
  append_line-Appended =
      let small : (ltb u64_max (length line + 1) || ltb s.max_bytes (length line + 1)) ≡ false =
        ground (arith, fits, usable.measured) in
      let start =
        pass_found 0 (λ current. go_on (is_full s current (length line + 1))) files
          (clean 0 (omega arith)) in
      rw small (
        subst (Appended s m line files) (sym start)
          (elim (Bool-cases (is_full s (found (files 0)) (length line + 1))) [
            | inl t ↦ rw t (go_on-true t)
            | inr f ↦ rw f (go_on-false f)
          ]))

-- Empty, or ended by a newline: the next line does not run into the last.
abbrev pub IsSealed : Bytes → Type 0
IsSealed bytes = (bytes ≡ []) ⊎ ((init : Bytes) × (bytes ≡ init ++ (10 ∷ [])))

-- No file is longer than the limit.
abbrev pub Bounded : Store → Files → Type 0
Bounded s files = (k : ℕ) → length (contents (files k)) ≤ s.max_bytes

-- What every `append` finds and leaves.
pub record IsHealthy (s : Store) (m : ℕ) (files : Files) : Type 0 where
  pub clean : NoLinks (suc m) files
  pub sealed : IsSealed (contents (files 0))
  pub bounded : Bounded s files

zero_or_more : (k : ℕ) → (k ≡ 0) ⊎ (0 < k)
zero_or_more k = ground arith

generation_cases : (m k : ℕ) → (k ≡ 0) ⊎ (((j : ℕ) × (k ≡ suc j) × (j < suc m)) ⊎ (suc m < k))
generation_cases m zero = inl refl
generation_cases m (suc j) = elim (order j) [
  | inl below ↦ inr (inl (j, refl, below))
  | inr above ↦ inr (inr above)
]
  where
    order : (i : ℕ) → (i < suc m) ⊎ (suc m < suc i)
    order i = ground arith

pub line_length : (line : Bytes) → length (line ++ 10 ∷ []) ≡ length line + 1
line_length line = length-append line (10 ∷ [])

module _ (json : Json) (s : Store) (m : ℕ) (usable : IsUsable s m) (r : Record) (line : Bytes)
    (valid : validate r ≡ none) (written : json.to_json r ≡ some line)
    (fits : length line + 1 ≤ s.max_bytes) (files : Files) (clean : NoLinks (suc m) files) where
  -- Let a store keep at least one rotated file under a limit below 2^64 - 1, and let no file of it be
  -- a symbolic link. If a record is valid and is written as a line that fits into a file, then
  -- `append` succeeds. It puts the line behind what the active file has where the limit allows that
  -- and leaves the other files alone; where it does not, every generation moves up by one, the oldest
  -- is dropped, and the active file has only the line.
  pub append-Appended : Appended s m line files (append json s r files)
  unfolding append
  append-Appended =
      let reduced : append_valid s (json.to_json r) (validate r) files ≡ append_line s line files =
        ap (λ o. append_valid s o (validate r) files) written
        ∙ ap (λ o. append_valid s (some line) o files) valid in
      subst (Appended s m line files) (sym reduced)
        (append_line-Appended s m usable line fits files clean)

  append-Bounded : Bounded s files → Bounded s (append json s r files).0
  append-Bounded b = kept (append json s r files) append-Appended
    where
      kept : (out : Files × Result Unit) → Appended s m line files out → Bounded s out.0
      kept out (behind next e active others size) k = rw e (elim (zero_or_more k) [
        | inl z ↦
            rw (z, active)
              (omega (
                arith,
                size,
                length-append (contents (files 0)) (line ++ 10 ∷ []),
                line_length line,
              ))
        | inr p ↦ rw (others k p) (b k)
      ])
      kept out (rotated next e active moved high size) k = rw e (elim (generation_cases m k) [
        | inl z ↦ rw (z, active) (omega (arith, fits, line_length line))
        | inr (inl (j, q, p)) ↦ rw (q, moved j p) (b j)
        | inr (inr p) ↦ rw (high k p) (b k)
      ])

  append-NoLinks : NoLinks (suc m) (append json s r files).0
  append-NoLinks = kept (append json s r files) append-Appended
    where
      kept : (out : Files × Result Unit) → Appended s m line files out → NoLinks (suc m) out.0
      kept out (behind next e active others size) k top = rw e (elim (zero_or_more k) [
        | inl z ↦ rw (z, active) (λ n. cc n)
        | inr p ↦ rw (others k p) (clean k top)
      ])
      kept out (rotated next e active moved high size) k top = rw e (elim (generation_cases m k) [
        | inl z ↦ rw (z, active) (λ n. cc n)
        | inr (inl (j, q, p)) ↦ rw (q, moved j p) (clean j (omega arith))
        | inr (inr p) ↦ absurd (omega arith)
      ])

  append-IsSealed : IsSealed (contents ((append json s r files).0 0))
  append-IsSealed = kept (append json s r files) append-Appended
    where
      kept :
          (out : Files × Result Unit) → Appended s m line files out → IsSealed (contents (out.0 0))
      kept out (behind next e active others size) =
          rw (e, active)
            (inr
              (contents (files 0) ++ line, sym (append_assoc (contents (files 0)) line (10 ∷ []))))
      kept out (rotated next e active moved high size) = rw (e, active) (inr (line, refl))

  -- Let a store keep at least one rotated file under a limit below 2^64 - 1, let no file of it be a
  -- symbolic link or longer than the limit, and let a record be valid and be written as a line that
  -- fits into a file. Then after `append` no file is longer than the limit, no file of the store is a
  -- symbolic link, and the active file is empty or ends in a newline.
  pub append-IsHealthy : Bounded s files → IsHealthy s m (append json s r files).0
  append-IsHealthy b = record {
    clean = append-NoLinks;
    sealed = append-IsSealed;
    bounded = append-Bounded b;
  }
