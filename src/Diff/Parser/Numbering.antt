-- ===== src/Diff/Parser/Numbering.antt =====
-- Lines that are numbered without gaps, and the builder of a hunk that numbers them.
use blindfold.Prelude.{
  ℕ, ◌+◌, ◌^◌, ◌%◌, ◌≡◌, refl, sym, ap, ◌∙◌, arith, Option, none, some, List, [], ◌∷◌, ◌++◌,
}
use blindfold.Core.SafeRef.{Text}
use blindfold.Diff.Text.{lines}
use blindfold.Diff.Patch.{
  PatchLineKind, context, removed, PatchLine, Hunk, HunkBuilder, push_kind, wrapping_add,
}

-- A line of each kind that is line `old` of the old file and line `new` of the new one.
abbrev pub line_at : PatchLineKind → Text → ℕ → ℕ → PatchLine
line_at context content old new = record {
  kind = context;
  old_line = some old;
  new_line = some new;
  content = content;
}
line_at PatchLineKind.added content old new = record {
  kind = PatchLineKind.added;
  old_line = none;
  new_line = some new;
  content = content;
}
line_at removed content old new = record {
  kind = removed;
  old_line = some old;
  new_line = none;
  content = content;
}

-- How many lines of the old and of the new file a line is.
abbrev pub old_lines : PatchLineKind → ℕ
old_lines PatchLineKind.added = 0
old_lines _ = 1

abbrev pub new_lines : PatchLineKind → ℕ
new_lines removed = 0
new_lines _ = 1

abbrev pub old_total : List PatchLine → ℕ
old_total [] = 0
old_total (line ∷ rest) = old_lines line.kind + old_total rest

abbrev pub new_total : List PatchLine → ℕ
new_total [] = 0
new_total (line ∷ rest) = new_lines line.kind + new_total rest

-- Numbered from `old` and `new` on, without gaps; numbers wrap around at 2^64.
abbrev pub IsNumbered : ℕ → ℕ → List PatchLine → Type 0
IsNumbered old new [] = Unit
IsNumbered old new (line ∷ rest) =
    (line ≡ line_at line.kind line.content (old % 2 ^ 64) (new % 2 ^ 64))
    × IsNumbered (old + old_lines line.kind) (new + new_lines line.kind) rest

abbrev pub IsNumberedHunk : Hunk → Type 0
IsNumberedHunk h = IsNumbered h.old_start h.new_start h.lines

line_at-kind :
    (kind : PatchLineKind) (content : Text) (old new : ℕ)
    → (line_at kind content old new).kind ≡ kind
line_at-kind context content old new = refl
line_at-kind PatchLineKind.added content old new = refl
line_at-kind removed content old new = refl

line_at_self :
    (kind : PatchLineKind) (content : Text) (o n p q : ℕ)
    → o ≡ p
    → n ≡ q
    → line_at kind content o n
      ≡ line_at (line_at kind content o n).kind (line_at kind content o n).content p q
line_at_self context content o n p q e f = λ i. line_at context content (e i) (f i)
line_at_self PatchLineKind.added content o n p q e f =
    λ i. line_at PatchLineKind.added content (e i) (f i)
line_at_self removed content o n p q e f = λ i. line_at removed content (e i) (f i)

pub IsNumbered-append :
    (old new : ℕ) (lines : List PatchLine) (kind : PatchLineKind) (content : Text) (o n : ℕ)
    → o ≡ old + old_total lines
    → n ≡ new + new_total lines
    → IsNumbered old new lines
    → IsNumbered old new (lines ++ (line_at kind content (o % 2 ^ 64) (n % 2 ^ 64) ∷ []))
IsNumbered-append old new [] kind content o n e f h =
    let e' : o % 2 ^ 64 ≡ old % 2 ^ 64 = omega arith in
    let f' : n % 2 ^ 64 ≡ new % 2 ^ 64 = omega arith in
    (line_at_self kind content (o % 2 ^ 64) (n % 2 ^ 64) (old % 2 ^ 64) (new % 2 ^ 64) e' f', tt)
IsNumbered-append old new (line ∷ lines) kind content o n e f h = (
  h.0,
  IsNumbered-append (old + old_lines line.kind) (new + new_lines line.kind) lines kind content o n
      (omega arith) (omega arith) h.1,
)

total-append :
    (lines : List PatchLine) (kind : PatchLineKind) (content : Text) (o n : ℕ)
    → (old_total (lines ++ (line_at kind content o n ∷ [])) ≡ old_total lines + old_lines kind)
      × (new_total (lines ++ (line_at kind content o n ∷ [])) ≡ new_total lines + new_lines kind)
total-append [] kind content o n = rw (line_at-kind kind content o n) (omega arith, omega arith)
total-append (line ∷ lines) kind content o n =
    let (e, f) = total-append lines kind content o n in (omega arith, omega arith)

-- A hunk that is being read is numbered, and counts its lines.
pub record IsBuilt (b : HunkBuilder) : Type 0 where
  pub numbered : IsNumbered b.old_start b.new_start b.lines
  pub old : b.old_seen ≡ old_total b.lines
  pub new : b.new_seen ≡ new_total b.lines

-- What the three branches of `push` have in common.
abbrev pub pushed : PatchLineKind → Text → HunkBuilder → HunkBuilder
pushed kind content b = record b {
  old_seen = b.old_seen + old_lines kind;
  new_seen = b.new_seen + new_lines kind;
  lines =
      b.lines
      ++ (line_at kind content (wrapping_add b.old_start b.old_seen)
            (wrapping_add b.new_start b.new_seen)
          ∷ []);
}

pub push_kind-pushed :
    (kind : PatchLineKind) (content : Text) (b : HunkBuilder)
    → push_kind kind content b ≡ pushed kind content b
push_kind-pushed context content b = refl
push_kind-pushed PatchLineKind.added content b = ground arith
push_kind-pushed removed content b = ground arith

pub pushed-IsBuilt :
    (kind : PatchLineKind) (content : Text) (b : HunkBuilder)
    → IsBuilt b
    → IsBuilt (pushed kind content b)
pushed-IsBuilt kind content b h =
    let (e, f) =
      total-append b.lines kind content (wrapping_add b.old_start b.old_seen)
        (wrapping_add b.new_start b.new_seen) in
    record {
      numbered =
          IsNumbered-append b.old_start b.new_start b.lines kind content (b.old_start + b.old_seen)
            (b.new_start + b.new_seen) (ap (λ x. b.old_start + x) h.old)
            (ap (λ x. b.new_start + x) h.new) h.numbered;
      old = ap (λ x. x + old_lines kind) h.old ∙ sym e;
      new = ap (λ x. x + new_lines kind) h.new ∙ sym f;
    }

abbrev pub OnSome : {A : Type 0} → (A → Type 0) → Option A → Type 0
OnSome P none = Unit
OnSome P (some a) = P a
