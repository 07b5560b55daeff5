-- ===== src/Diff/Parser/Steps.antt =====
-- What is kept by each step of `parse_patch`: a rule for every predicate on its variables.
use blindfold.Prelude.{
  true, false, ◌||◌, List, [], ◌∷◌, Option, none, some, ◌≡◌, refl, ap, inl, inr, Bool-cases, arith,
  if◌then◌else◌, codes, bytes_eq, ◌++◌,
}
use blindfold.Core.SafeRef.{Text, strip_prefix}
use blindfold.Diff.Text.{starts_with}
use blindfold.Diff.Patch.{Result, ok, err, ◌>>=◌, FileBuilder, HunkBuilder, push, Hunk}
use blindfold.Diff.Parser.{
  Parsing, begin_file, begin_hunk, header_line, parse_line, parse_lines, or_new, set_file,
  change_file, no_newline, binary_line, rename_to_line, rename_from_line, new_path_line,
  old_path_line, inner_line,
}

abbrev pub Ensures : {A : Type 0} → (A → Type 0) → Result A → Type 0
Ensures P (ok a) = P a
Ensures P (err e) = Unit

pub Ensures-bind :
    {A B : Type 0} (P : A → Type 0) (Q : B → Type 0) (m : Result A) (k : A → Result B)
    → Ensures P m
    → ((a : A) → P a → Ensures Q (k a))
    → Ensures Q (m >>= k)
Ensures-bind P Q (ok a) k h f = f a h
Ensures-bind P Q (err e) k h f = tt

pub Ensures-then :
    {A B : Type 0} (Q : B → Type 0) (m : Result A) (k : A → Result B)
    → ((a : A) → Ensures Q (k a))
    → Ensures Q (m >>= k)
Ensures-then Q (ok a) k f = f a
Ensures-then Q (err e) k f = tt

pub Ensures-intro :
    {A : Type 0} (P : A → Type 0) (m : Result A) → ((a : A) → m ≡ ok a → P a) → Ensures P m
Ensures-intro P (ok a) f = f a refl
Ensures-intro P (err e) f = tt

pub Ensures-ok : {A : Type 0} (P : A → Type 0) (m : Result A) (a : A) → Ensures P m → m ≡ ok a → P a
Ensures-ok P (ok b) a h e = ground (arith, h)
Ensures-ok P (err x) a h e = cc

abbrev pub hunks_of : Option FileBuilder → List Hunk
hunks_of none = []
hunks_of (some b) = b.hunks

-- What a line outside of hunks leaves alone.
pub record HeaderKept (s t : Parsing) : Type 0 where
  pub files : t.files ≡ s.files
  pub hunk : t.hunk ≡ s.hunk
  pub hunks : hunks_of t.file ≡ hunks_of s.file

hunks_of-or_new : (file : Option FileBuilder) → (or_new file).hunks ≡ hunks_of file
hunks_of-or_new none = refl
hunks_of-or_new (some b) = refl

changed-HeaderKept :
    (s : Parsing) (f : FileBuilder → FileBuilder)
    → ((b : FileBuilder) → (f b).hunks ≡ b.hunks)
    → HeaderKept s (set_file (change_file f s.file) s)
changed-HeaderKept s f keeps = record { files = refl; hunk = refl; hunks = same s.file }
  where
    same : (file : Option FileBuilder) → hunks_of (change_file f file) ≡ hunks_of file
    same none = refl
    same (some b) = keeps b

kept : (s : Parsing) → HeaderKept s s
kept s = record { files = refl; hunk = refl; hunks = refl }

pub header_line-HeaderKept : (line : Text) (s : Parsing) → HeaderKept s (header_line line s)
unfolding header_line old_path_line new_path_line rename_from_line rename_to_line binary_line
header_line-HeaderKept line s =
    elim (strip_prefix line (codes "--- ")) as (λ o. HeaderKept s (old_path_line line o s)) [
      | some path ↦ record { files = refl; hunk = refl; hunks = hunks_of-or_new s.file }
      | none ↦
          elim (strip_prefix line (codes "+++ ")) as (λ o. HeaderKept s (new_path_line line o s)) [
            | some path ↦ record { files = refl; hunk = refl; hunks = hunks_of-or_new s.file }
            | none ↦
                elim (strip_prefix line (codes "rename from "))
                  as (λ o. HeaderKept s (rename_from_line line o s)) [
                    | some path ↦ changed-HeaderKept s _ (λ b. refl)
                    | none ↦
                        elim (strip_prefix line (codes "rename to "))
                          as (λ o. HeaderKept s (rename_to_line line o s)) [
                            | some path ↦ changed-HeaderKept s _ (λ b. refl)
                            | none ↦
                                elim (starts_with line (codes "Binary files ")
                                    || bytes_eq line (codes "GIT binary patch"))
                                  as (λ t. HeaderKept s (
                                    if t
                                    then set_file
                                        (change_file (λ b. record b { binary = true }) s.file) s
                                    else s)) [
                                      | true ↦ changed-HeaderKept s _ (λ b. refl)
                                      | false ↦ kept s
                                    ]
                          ]
                  ]
          ]
    ]

-- A predicate on the variables that every kind of line keeps is kept by a round.
pub parse_line-Ensures :
    (P : Parsing → Type 0) (line : Text) (s : Parsing)
    → Ensures P (begin_file line s)
    → Ensures P (begin_hunk line s)
    → (s.hunk ≡ none → P (header_line line s))
    → P s
    → ((hunk pushed : HunkBuilder)
        → s.hunk ≡ some hunk
        → push line hunk ≡ ok pushed
        → P (record s { hunk = some pushed }))
    → Ensures P (parse_line line s)
unfolding parse_line
parse_line-Ensures P line s file hunk header skip pushes =
    elim (Bool-cases (starts_with line (codes "diff --git "))) [
      | inl t ↦ rw t file
      | inr f ↦ elim (Bool-cases (starts_with line (codes "@@ "))) [
        | inl t ↦ rw (f, t) hunk
        | inr g ↦ rw (f, g) (inside s.hunk refl)
      ]
    ]
  where
    inside : (h : Option HunkBuilder) → s.hunk ≡ h → Ensures P (inner_line line s h)
    inside none e = header e
    inside (some b) e = elim (Bool-cases (bytes_eq line no_newline)) [
      | inl t ↦ rw t skip
      | inr f ↦ rw f (
          Ensures-bind (λ pushed. push line b ≡ ok pushed) P (push line b) _
            (Ensures-intro (λ pushed. push line b ≡ ok pushed) (push line b) (λ a h. h))
            (λ pushed h. pushes b pushed e h))
    ]

pub parse_lines-Ensures :
    (P : Parsing → Type 0)
    (step : (line : Text) (s : Parsing) → P s → Ensures P (parse_line line s)) (rest : List Text)
    (s : Parsing)
    → P s
    → Ensures P (parse_lines rest s)
unfolding parse_lines
parse_lines-Ensures P step [] s h = h
parse_lines-Ensures P step (line ∷ rest) s h =
    Ensures-bind P P (parse_line line s) (parse_lines rest) (step line s h)
      (λ t k. parse_lines-Ensures P step rest t k)

pub parse_lines-append :
    (xs ys : List Text) (s t : Parsing)
    → parse_lines xs s ≡ ok t
    → parse_lines (xs ++ ys) s ≡ parse_lines ys t
unfolding parse_lines
parse_lines-append [] ys s t e = ap (parse_lines ys) (cc)
parse_lines-append (x ∷ xs) ys s t e = go (parse_line x s) (λ u. parse_lines-append xs ys u t) e
  where
    go :
        (m : Result Parsing)
        → ((u : Parsing) → parse_lines xs u ≡ ok t → parse_lines (xs ++ ys) u ≡ parse_lines ys t)
        → (m >>= parse_lines xs) ≡ ok t
        → (m >>= parse_lines (xs ++ ys)) ≡ parse_lines ys t
    go (ok u) ih h = ih u h
    go (err x) ih h = cc
