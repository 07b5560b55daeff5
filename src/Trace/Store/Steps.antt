-- ===== src/Trace/Store/Steps.antt =====
-- What an operation preserves, if each change of a file does that the guards let through.
use blindfold.Prelude.{
  ℕ, zero, suc, ◌-◌, ◌≡◌, ◌≢◌, refl, sym, subst, Bool, true, false, Option, none, some,
}
use blindfold.Trace.Record.{Bytes}
use blindfold.Trace.Store.{
  Entry, missing, symlink, present, Files, put, Result, ok, err, Step, continue, ◌>>=◌, ◌>>◌,
  reject_symlink, move_entry, remove_file, rename, shift, rotate, must_move, move_active,
  clear_from, clear, Store, one_more,
}

module _ (P : Files → Type 0) where
  abbrev pub Preserves : {A : Type 0} → Step A → Type 0
  Preserves m = (files : Files) → P files → P (m files).0

  continue-Preserves :
      {A B : Type 0} (k : A → Step B)
      → ((a : A) → Preserves (k a))
      → (out : Files × Result A) → P out.0
      → P (continue k out).0
  continue-Preserves k keeps (files, ok a) h = keeps a files h
  continue-Preserves k keeps (files, err e) h = h

  pub >>=-Preserves :
      {A B : Type 0} (m : Step A) (k : A → Step B)
      → Preserves m
      → ((a : A) → Preserves (k a))
      → Preserves (m >>= k)
  >>=-Preserves m k h keeps files p = continue-Preserves k keeps (m files) (h files p)

  pub reject_symlink-Preserves : (g : ℕ) → Preserves (reject_symlink g)
  unfolding reject_symlink
  reject_symlink-Preserves g files h = h

  -- After its check, a file can be changed.
  pub checked :
      {B : Type 0} (g : ℕ) (k : Option Bytes → Step B) (files : Files)
      → P files
      → ((a : Option Bytes) → files g ≢ symlink → P (k a files).0)
      → P ((reject_symlink g >>= k) files).0
  unfolding reject_symlink
  checked g k files h keeps = go (files g) refl
    where
      go : (e : Entry) → files g ≡ e → P ((reject_symlink g >>= k) files).0
      go missing e = rw e (keeps none (λ s. cc (e, s)))
      go symlink e = rw e h
      go (present bytes) e = rw e (keeps (some bytes) (λ s. cc (e, s)))

module _ (P : Files → Type 0)
    (removes : (g : ℕ) (files : Files) → files g ≢ symlink → P files → P (put files g missing))
    (moves : (a b : ℕ) (files : Files)
      → files a ≢ symlink
      → files b ≢ symlink
      → P files
      → P (put (put files b (files a)) a missing)) where
  remove_file-kept :
      (g : ℕ) (files : Files) → files g ≢ symlink → P files → P (remove_file g files).0
  unfolding remove_file
  remove_file-kept g files s h = go (files g) refl
    where
      go : (e : Entry) → files g ≡ e → P (remove_file g files).0
      go missing e = rw e h
      go symlink e = absurd (s e)
      go (present bytes) e = rw e (removes g files s h)

  rename-kept :
      (a b : ℕ) (files : Files)
      → files a ≢ symlink
      → files b ≢ symlink
      → P files
      → P (rename a b files).0
  unfolding rename
  rename-kept a b files s t h = go (files a) refl
    where
      go : (e : Entry) → files a ≡ e → P (rename a b files).0
      go missing e = rw e h
      go symlink e = absurd (s e)
      go (present bytes) e =
          subst (λ x. P (move_entry files a b x).0) (sym e)
            (subst (λ x. P (put (put files b x) a missing)) e (moves a b files s t h))

  -- A file that was checked is removed, and then another step is done.
  removal-Preserves :
      {B : Type 0} (g : ℕ) (k : Bool → Step B)
      → ((gone : Bool) → Preserves P (k gone))
      → Preserves P (reject_symlink g >>= λ found. (remove_file g >>= k))
  removal-Preserves g k keeps files h =
      checked P g (λ found. remove_file g >>= k) files h
        (λ found s.
          continue-Preserves P k keeps (remove_file g files) (remove_file-kept g files s h))

  renaming-Preserves :
      {B : Type 0} (a b : ℕ) (k : Bool → Step B)
      → ((moved : Bool) → Preserves P (k moved))
      → Preserves P (reject_symlink a >>= λ x. (reject_symlink b >>= λ y. (rename a b >>= k)))
  renaming-Preserves a b k keeps files h =
      checked P a (λ x. reject_symlink b >>= λ y. (rename a b >>= k)) files h
        (λ x s.
          checked P b (λ y. rename a b >>= k) files h
            (λ y t. continue-Preserves P k keeps (rename a b files) (rename-kept a b files s t h)))

  shift-Preserves : (n : ℕ) → Preserves P (shift n)
  unfolding shift
  shift-Preserves zero files h = h
  shift-Preserves (suc n) files h =
      renaming-Preserves (suc n) (suc (suc n)) (λ moved. shift n) (λ moved. shift-Preserves n) files
        h

  must_move-Preserves : (moved : Bool) → Preserves P (must_move moved)
  must_move-Preserves true files h = h
  must_move-Preserves false files h = h

  move_active-Preserves : Preserves P move_active
  unfolding move_active
  move_active-Preserves = renaming-Preserves 0 1 must_move must_move-Preserves

  pub rotate-Preserves : (n : ℕ) → Preserves P (rotate n)
  unfolding rotate
  rotate-Preserves n =
      removal-Preserves n (λ gone. shift (n - 1) >> move_active)
        (λ gone.
          >>=-Preserves P (shift (n - 1)) (λ u. move_active) (shift-Preserves (n - 1))
            (λ u. move_active-Preserves))

  clear_from-Preserves : (left g removed : ℕ) → Preserves P (clear_from left g removed)
  unfolding clear_from
  clear_from-Preserves zero g removed files h = h
  clear_from-Preserves (suc left) g removed files h =
      removal-Preserves g (λ gone. clear_from left (suc g) (one_more gone removed))
        (λ gone. clear_from-Preserves left (suc g) (one_more gone removed)) files h

  pub clear-Preserves : (s : Store) → Preserves P (clear s)
  unfolding clear
  clear-Preserves s = clear_from-Preserves (suc s.retained_files) 0 0
