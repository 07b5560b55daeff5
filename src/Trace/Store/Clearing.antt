-- ===== src/Trace/Store/Clearing.antt =====
-- What `clear` does where no file of the store is a symbolic link.
use blindfold.Prelude.{
  ℕ, zero, suc, ◌+◌, ◌≤◌, ◌<◌, ◌≡◌, ◌≢◌, refl, sym, subst, ap, ◌∙◌, ◌⊎◌, inl, inr, arith, Bool,
}
use blindfold.Trace.Store.{
  missing, symlink, Files, Result, ok, Step, continue, ◌>>=◌, remove_file, Store, one_more,
  clear_from, clear,
}
use blindfold.Trace.Store.Entries.{NoLinks, pass, there, remove_file-Removed}

-- How many of the generations from `g` up there are, of `left`.
abbrev pub count : ℕ → ℕ → Files → ℕ
count zero g files = 0
count (suc left) g files = there (files g) + count left (suc g) files

count-same :
    (left g : ℕ) (files next : Files)
    → ((k : ℕ) → g ≤ k → next k ≡ files k)
    → count left g next ≡ count left g files
count-same zero g files next h = refl
count-same (suc left) g files next h = λ i.
    there (h g (omega arith) i) + count-same left (suc g) files next (λ k p. h k (omega arith)) i

pub record Cleared (left g removed : ℕ) (files : Files) (out : Files × Result ℕ) : Type 0 where
  pub next : Files
  pub returned : out ≡ (next, ok (removed + count left g files))
  pub gone : (k : ℕ) → g ≤ k → k < g + left → next k ≡ missing
  pub below : (k : ℕ) → k < g → next k ≡ files k
  pub above : (k : ℕ) → g + left ≤ k → next k ≡ files k

abbrev Clean : ℕ → ℕ → Files → Type 0
Clean left g files = (k : ℕ) → g ≤ k → k < g + left → files k ≢ symlink

first_or_later : (g k : ℕ) → g ≤ k → (k ≡ g) ⊎ (suc g ≤ k)
first_or_later g k h = ground arith

clear_from-Cleared :
    (left g removed : ℕ) (files : Files)
    → Clean left g files
    → Cleared left g removed files (clear_from left g removed files)
unfolding clear_from
clear_from-Cleared zero g removed files clean = record {
  next = files;
  returned =
      let none_more : removed ≡ removed + 0 = omega arith in ap (λ n. (files, ok n)) none_more;
  gone = λ k p q. absurd (omega arith);
  below = λ k p. refl;
  above = λ k p. refl;
}
clear_from-Cleared (suc left) g removed files clean =
    let x = remove_file-Removed g files (clean g (omega arith) (omega arith)) in
    let rest : Bool → Step ℕ = λ gone. clear_from left (suc g) (one_more gone removed) in
    let later : Clean left (suc g) x.next = λ k p q.
      subst (λ e. e ≢ symlink) (sym (x.others k (λ t. absurd (omega arith))))
        (clean k (omega arith) (omega arith)) in
    let c = clear_from-Cleared left (suc g) (one_more x.gone removed) x.next later in
    let first = pass g (remove_file g >>= rest) files (clean g (omega arith) (omega arith)) in
    let total : one_more x.gone removed + count left (suc g) x.next
        ≡ removed + (there (files g) + count left (suc g) files) =
      omega (
        arith,
        x.counted removed,
        count-same left (suc g) files x.next (λ k p. x.others k (λ t. absurd (omega arith))),
      ) in
    record {
      next = c.next;
      returned =
          first ∙ ap (continue rest) x.returned ∙ c.returned ∙ ap (λ n. (c.next, ok n)) total;
      gone = λ k p q. elim (first_or_later g k p) [
        | inl e ↦ subst (λ j. c.next j ≡ missing) (sym e) (c.below g (omega arith) ∙ x.free)
        | inr l ↦ c.gone k l (omega arith)
      ];
      below = λ k p. c.below k (omega arith) ∙ x.others k (λ t. absurd (omega arith));
      above = λ k p. c.above k (omega arith) ∙ x.others k (λ t. absurd (omega arith));
    }

-- If no file of the store is a symbolic link, `clear` succeeds: the active file and every retained
-- generation are missing afterwards, all other files are untouched, and it returns how many of the
-- files there were.
pub clear-Cleared :
    (s : Store) (files : Files)
    → NoLinks s.retained_files files
    → Cleared (suc s.retained_files) 0 0 files (clear s files)
unfolding clear
clear-Cleared s files clean =
    clear_from-Cleared (suc s.retained_files) 0 0 files (λ k p q. clean k (omega arith))
