-- ===== src/Trace/Store/Links.antt =====
-- Symbolic links are never written through, moved or removed.
use blindfold.Prelude.{
  ℕ, ◌+◌, ◌≡◌, ◌≢◌, subst, ◌∙◌, Bool, true, false, Option, none, some, Bool-cases, inl, inr, ltb,
  ◌||◌, length,
}
use blindfold.Trace.Record.{Bytes, Error, Record, validate}
use blindfold.Trace.Store.{
  Entry, missing, symlink, Files, put, clear, Store, Json, append, append_line, append_valid,
  rotate_if, write_behind, is_full, u64_max, reject_symlink, ◌>>◌, write_line, append_fitting,
}
use blindfold.Trace.Store.Entries.{put-other}
use blindfold.Trace.Store.Steps.{
  Preserves, >>=-Preserves, reject_symlink-Preserves, checked, rotate-Preserves, clear-Preserves,
}

module _ (k : ℕ) where
  abbrev IsLink : Files → Type 0
  IsLink files = files k ≡ symlink

  -- Only files that are no links are changed.
  put-IsLink :
      (files : Files) (g : ℕ) (e : Entry)
      → files g ≢ symlink
      → IsLink files
      → IsLink (put files g e)
  put-IsLink files g e s h =
      put-other files g k e (λ same. s (subst (λ x. files x ≡ symlink) same h)) ∙ h

  moves-IsLink :
      (a b : ℕ) (files : Files)
      → files a ≢ symlink
      → files b ≢ symlink
      → IsLink files
      → IsLink (put (put files b (files a)) a missing)
  moves-IsLink a b files s t h =
      put-other (put files b (files a)) a k missing
        (λ same. s (subst (λ x. files x ≡ symlink) same h))
      ∙ put-IsLink files b (files a) t h

  removes-IsLink :
      (g : ℕ) (files : Files) → files g ≢ symlink → IsLink files → IsLink (put files g missing)
  removes-IsLink g files s h = put-IsLink files g missing s h

  rotate_if-IsLink : (full : Bool) (n : ℕ) → Preserves IsLink (rotate_if full n)
  rotate_if-IsLink true n files h = rotate-Preserves IsLink removes-IsLink moves-IsLink n files h
  rotate_if-IsLink false n files h = h

  write_line-IsLink : (line : Bytes) → Preserves IsLink (write_line line)
  unfolding write_line
  write_line-IsLink line files h =
      checked IsLink 0 (write_behind line) files h (λ old s. put-IsLink files 0 _ s h)

  append_fitting-IsLink : (s : Store) (line : Bytes) → Preserves IsLink (append_fitting s line)
  unfolding append_fitting
  append_fitting-IsLink s line =
      >>=-Preserves IsLink (reject_symlink 0)
        (λ current.
          rotate_if (is_full s current (length line + 1)) s.retained_files >> write_line line)
        (reject_symlink-Preserves IsLink 0)
        (λ current.
          >>=-Preserves IsLink (rotate_if (is_full s current (length line + 1)) s.retained_files)
            (λ u. write_line line)
            (rotate_if-IsLink (is_full s current (length line + 1)) s.retained_files)
            (λ u. write_line-IsLink line))

  append_line-IsLink : (s : Store) (line : Bytes) → Preserves IsLink (append_line s line)
  unfolding append_line
  append_line-IsLink s line files h =
      elim (Bool-cases (ltb u64_max (length line + 1) || ltb s.max_bytes (length line + 1))) [
        | inl t ↦ rw t h
        | inr f ↦ rw f (append_fitting-IsLink s line files h)
      ]

  append_valid-IsLink :
      (s : Store) (o : Option Bytes) (e : Option Error) → Preserves IsLink (append_valid s o e)
  append_valid-IsLink s none none files h = h
  append_valid-IsLink s (some line) none files h = append_line-IsLink s line files h
  append_valid-IsLink s o (some e) files h = h

module _ (s : Store) (files : Files) (k : ℕ) (link : files k ≡ symlink) where
  -- Whatever `append` returns, a file of the store that was a symbolic link before is the same link
  -- afterwards.
  pub append-symlink : (json : Json) (r : Record) → (append json s r files).0 k ≡ symlink
  unfolding append
  append-symlink json r = append_valid-IsLink k s (json.to_json r) (validate r) files link

  -- Whatever `clear` returns, a file that was a symbolic link before is the same link afterwards.
  pub clear-symlink : (clear s files).0 k ≡ symlink
  clear-symlink =
      clear-Preserves (λ f. f k ≡ symlink) (removes-IsLink k) (moves-IsLink k) s files link
