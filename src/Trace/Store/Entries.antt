-- ===== src/Trace/Store/Entries.antt =====
-- What one operation on a file of the store does where the files it touches are no symbolic links:
-- a check, a renaming and a removal.
use blindfold.Prelude.{ℕ, ◌+◌, ◌≤◌, ◌≡◌, ◌≢◌, refl, sym, ◌∙◌, arith, Bool, true, false}
use blindfold.Trace.Store.{
  Entry, missing, symlink, present, Files, put, Result, ok, Step, ◌>>◌, reject_symlink, remove_file,
  rename, one_more,
}

pub put-same : (files : Files) (g : ℕ) (e : Entry) → put files g e g ≡ e
unfolding put
put-same files g e = ground arith

pub put-other : (files : Files) (g k : ℕ) (e : Entry) → k ≢ g → put files g e k ≡ files k
unfolding put
put-other files g k e h = ground (arith, h)

abbrev pub NoLinks : ℕ → Files → Type 0
NoLinks n files = (g : ℕ) → g ≤ n → files g ≢ symlink

-- A check lets a file pass that is no link.
pub pass :
    {B : Type 0} (g : ℕ) (m : Step B) (files : Files)
    → files g ≢ symlink
    → (reject_symlink g >> m) files ≡ m files
unfolding reject_symlink
pass g m files s = go (files g) refl
  where
    go : (e : Entry) → files g ≡ e → (reject_symlink g >> m) files ≡ m files
    go missing e = rw e
    go symlink e = absurd (s e)
    go (present bytes) e = rw e

pub record Renamed (a b : ℕ) (files : Files) (out : Files × Result Bool) : Type 0 where
  pub next : Files
  pub moved : Bool
  pub returned : out ≡ (next, ok moved)
  pub source : next a ≡ missing
  pub destination : next b ≡ files a
  pub others : (k : ℕ) → k ≢ a → k ≢ b → next k ≡ files k
  pub is_moved : files a ≢ missing → moved ≡ true

pub rename-Renamed :
    (a b : ℕ) (files : Files)
    → a ≢ b
    → files a ≢ symlink
    → files b ≡ missing
    → Renamed a b files (rename a b files)
unfolding rename
rename-Renamed a b files d s free = go (files a) refl
  where
    go : (e : Entry) → files a ≡ e → Renamed a b files (rename a b files)
    go missing e = record {
      next = files;
      moved = false;
      returned = rw (e, rename);
      source = e;
      destination = free ∙ sym e;
      others = λ k p q. refl;
      is_moved = λ n. absurd (n e);
    }
    go symlink e = absurd (s e)
    go (present bytes) e = record {
      next = put (put files b (present bytes)) a missing;
      moved = true;
      returned = rw (e, rename);
      source = put-same (put files b (present bytes)) a missing;
      destination =
          put-other (put files b (present bytes)) a b missing (λ q. d (sym q))
          ∙ put-same files b (present bytes)
          ∙ sym e;
      others = λ k p q.
          put-other (put files b (present bytes)) a k missing p
          ∙ put-other files b k (present bytes) q;
      is_moved = λ n. refl;
    }

-- How many files an entry is.
abbrev pub there : Entry → ℕ
there missing = 0
there _ = 1

pub record Removed (g : ℕ) (files : Files) (out : Files × Result Bool) : Type 0 where
  pub next : Files
  pub gone : Bool
  pub returned : out ≡ (next, ok gone)
  pub free : next g ≡ missing
  pub others : (k : ℕ) → k ≢ g → next k ≡ files k
  pub counted : (n : ℕ) → one_more gone n ≡ n + there (files g)

pub remove_file-Removed :
    (g : ℕ) (files : Files) → files g ≢ symlink → Removed g files (remove_file g files)
unfolding remove_file
remove_file-Removed g files s = go (files g) refl
  where
    go : (e : Entry) → files g ≡ e → Removed g files (remove_file g files)
    go missing e = record {
      next = files;
      gone = false;
      returned = rw (e, remove_file);
      free = e;
      others = λ k p. refl;
      counted = λ n. rw e (omega arith);
    }
    go symlink e = absurd (s e)
    go (present bytes) e = record {
      next = put files g missing;
      gone = true;
      returned = rw (e, remove_file);
      free = put-same files g missing;
      others = λ k p. put-other files g k missing p;
      counted = λ n. rw e (omega arith);
    }
