-- ===== src/Trace/Reader/Laws.antt =====
-- What is read after a record was appended: what was read before, without the oldest generation if the
-- files were rotated, and the record.
use blindfold.Prelude.{
  ℕ, zero, suc, ◌+◌, ◌≤◌, ◌<◌, ◌≡◌, ◌≢◌, refl, sym, subst, ap, ◌∙◌, ◌⊎◌, inl, inr, arith, List, [],
  ◌∷◌, ◌++◌, length, length-append,
}
use blindfold.Trace.Record.{Bytes, Record}
use blindfold.Trace.Store.{
  Entry, missing, symlink, present, Files, Result, ok, err, Json, Store, append,
}
use blindfold.Trace.Store.Entries.{NoLinks}
use blindfold.Trace.Store.Bounds.{
  contents, IsSealed, IsUsable, Appended, behind, rotated, append-Appended, line_length,
}
use blindfold.Trace.Reader.{both, read_lines, read_entry, read_from, read_all, split}
use blindfold.Trace.Reader.Lines.{
  both_assoc, both-nil, nil-both, lines_of, lines_of-sealed, IsWritten, read_lines-append,
  read_line, read_entry-present,
}

module _ (json : Json) (max_bytes : ℕ) where
  -- The rotated generations from `n` down to 1.
  upper : ℕ → Files → Result (List Record)
  upper zero files = ok []
  upper (suc n) files = both (read_entry json max_bytes (files (suc n))) (upper n files)

  read_from-upper :
      (n : ℕ) (files : Files)
      → read_from json max_bytes n files
        ≡ both (upper n files) (read_entry json max_bytes (files 0))
  unfolding read_from upper
  read_from-upper zero files = sym (nil-both (read_entry json max_bytes (files 0)))
  read_from-upper (suc n) files =
      ap (both (read_entry json max_bytes (files (suc n)))) (read_from-upper n files)
      ∙ sym (both_assoc (read_entry json max_bytes (files (suc n))) (upper n files) _)

  upper-same :
      (n : ℕ) (files next : Files)
      → ((k : ℕ) → 0 < k → next k ≡ files k)
      → upper n next ≡ upper n files
  unfolding upper
  upper-same zero files next h = refl
  upper-same (suc n) files next h = λ i.
      both (read_entry json max_bytes (h (suc n) (omega arith) i)) (upper-same n files next h i)

  upper-moved :
      (m : ℕ) (files next : Files)
      → ((k : ℕ) → k < suc m → next (suc k) ≡ files k)
      → upper (suc m) next ≡ read_from json max_bytes m files
  unfolding upper read_from
  upper-moved zero files next h =
      both-nil (read_entry json max_bytes (next 1))
      ∙ ap (read_entry json max_bytes) (h 0 (omega arith))
  upper-moved (suc m) files next h = λ i.
      both (read_entry json max_bytes (h (suc m) (omega arith) i))
        (upper-moved m files next (λ k p. h k (omega arith)) i)

  -- The active file before and after a line is put behind it.
  read_entry-behind :
      (e : Entry) (r : Record) (line : Bytes)
      → e ≢ symlink
      → IsWritten json r line
      → IsSealed (contents e)
      → length (contents e) + (length line + 1) ≤ max_bytes
      → read_entry json max_bytes (present (contents e ++ (line ++ 10 ∷ [])))
        ≡ both (read_entry json max_bytes e) (ok (r ∷ []))
  unfolding read_entry read_lines split
  read_entry-behind symlink r line s w sealed h = absurd (s refl)
  read_entry-behind missing r line s w sealed h =
      read_entry-present json max_bytes (line ++ 10 ∷ []) (omega (arith, h, line_length line))
      ∙ ap (read_lines json) (lines_of-sealed [] line (inl refl) w.filled w.one_line)
      ∙ read_line json r line w
  read_entry-behind (present old) r line s w sealed h =
      read_entry-present json max_bytes (old ++ (line ++ 10 ∷ []))
        (omega (arith, h, length-append old (line ++ 10 ∷ []), line_length line))
      ∙ ap (read_lines json) (lines_of-sealed old line sealed w.filled w.one_line)
      ∙ read_lines-append json (lines_of old) (line ∷ [])
      ∙ ap (both (read_lines json (lines_of old))) (read_line json r line w)
      ∙ ap (λ x. both x (ok (r ∷ [])))
          (sym (read_entry-present json max_bytes old (omega (arith, h))))

both-ok :
    (a b : Result (List Record)) (rs : List Record)
    → both a b ≡ ok rs
    → (old : List Record) × (kept : List Record) × (a ≡ ok old) × (b ≡ ok kept) × (rs ≡ old ++ kept)
both-ok (ok xs) (ok ys) rs h = (xs, ys, refl, refl, cc h)
both-ok (ok xs) (err e) rs h = cc
both-ok (err e) b rs h = cc

-- What is read is what was read before, without the oldest generation if that was dropped, and one
-- more record.
pub record Grown (rs : List Record) (oldest : Result (List Record)) (r : Record)
    (now : Result (List Record)) : Type 0 where
  pub dropped : List Record
  pub kept : List Record
  pub generation : (dropped ≡ []) ⊎ (oldest ≡ ok dropped)
  pub before : rs ≡ dropped ++ kept
  pub after : now ≡ ok (kept ++ (r ∷ []))

module _ (json : Json) (s : Store) (m : ℕ) (usable : IsUsable s m) (r : Record) (line : Bytes)
    (w : IsWritten json r line) (fits : length line + 1 ≤ s.max_bytes) (files : Files)
    (clean : NoLinks (suc m) files) (sealed : IsSealed (contents (files 0))) (rs : List Record)
    (readable : read_all json s files ≡ ok rs) where
  at_retained : (next : Files) → read_all json s next ≡ read_from json s.max_bytes (suc m) next
  unfolding read_all
  at_retained next = ap (λ n. read_from json s.max_bytes n next) usable.retained

  Grown-behind :
      (next : Files)
      → next 0 ≡ present (contents (files 0) ++ (line ++ 10 ∷ []))
      → ((k : ℕ) → 0 < k → next k ≡ files k)
      → length (contents (files 0)) + (length line + 1) ≤ s.max_bytes
      → Grown rs (read_entry json s.max_bytes (files (suc m))) r (read_all json s next)
  Grown-behind next active others size =
      let max = s.max_bytes in
      let entry =
        ap (read_entry json max) active
        ∙ read_entry-behind json max (files 0) r line (clean 0 (omega arith)) w sealed size in
      let old = sym (read_from-upper json max (suc m) files) ∙ sym (at_retained files) ∙ readable in
      record {
        dropped = [];
        kept = rs;
        generation = inl refl;
        before = refl;
        after =
            at_retained next
            ∙ read_from-upper json max (suc m) next
            ∙ (λ i. both (upper-same json max (suc m) files next others i) (entry i))
            ∙ sym (
                both_assoc (upper json max (suc m) files) (read_entry json max (files 0))
                  (ok (r ∷ [])))
            ∙ ap (λ x. both x (ok (r ∷ []))) old;
      }

  Grown-rotated :
      (next : Files)
      → next 0 ≡ present (line ++ 10 ∷ [])
      → ((k : ℕ) → k < suc m → next (suc k) ≡ files k)
      → Grown rs (read_entry json s.max_bytes (files (suc m))) r (read_all json s next)
  unfolding read_from
  Grown-rotated next active moved =
      let max = s.max_bytes in
      let entry =
        ap (read_entry json max) active
        ∙ read_entry-present json max (line ++ 10 ∷ []) (omega (arith, fits, line_length line))
        ∙ ap (read_lines json) (lines_of-sealed [] line (inl refl) w.filled w.one_line)
        ∙ read_line json r line w in
      let (old, kept, first, rest, whole) =
        both-ok (read_entry json max (files (suc m))) (read_from json max m files) rs
          (sym (at_retained files) ∙ readable) in
      record {
        dropped = old;
        kept = kept;
        generation = inr first;
        before = whole;
        after =
            at_retained next
            ∙ read_from-upper json max (suc m) next
            ∙ (λ i. both ((upper-moved json max m files next moved ∙ rest) i) (entry i));
      }

  grown :
      (out : Result Unit) (next : Files)
      → Appended s m line files (next, out)
      → Grown rs (read_entry json s.max_bytes (files (suc m))) r (read_all json s next)
  grown out next (behind later e active others size) =
      subst (λ f. Grown rs (read_entry json s.max_bytes (files (suc m))) r (read_all json s f))
        (ap (λ x. x.0) (sym e)) (Grown-behind later active others size)
  grown out next (rotated later e active moved high size) =
      subst (λ f. Grown rs (read_entry json s.max_bytes (files (suc m))) r (read_all json s f))
        (ap (λ x. x.0) (sym e)) (Grown-rotated later active moved)

  -- Let a store keep at least one rotated file under a limit below 2^64 - 1, let no file of it be a
  -- symbolic link, let the active file be empty or end in a newline, and let it be readable. If the
  -- line that a valid record is written as fits into a file, is one line, and is parsed back as the
  -- record, then after `append` the store is readable, and what is read is what was read before, less
  -- at most the records of the oldest generation at its front, followed by the record.
  pub read_all-append :
      Grown rs
        (read_entry json s.max_bytes (files (suc m)))
        r
        (read_all json s (append json s r files).0)
  read_all-append =
      grown (append json s r files).1 (append json s r files).0
        (append-Appended json s m usable r line w.valid w.written fits files clean)
