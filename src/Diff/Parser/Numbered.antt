-- ===== src/Diff/Parser/Numbered.antt =====
-- The line numbers of a parsed patch: within a hunk they count up from its starts.
use blindfold.Prelude.{
  ℕ, ◌≡◌, refl, sym, subst, ◌∙◌, inl, inr, arith, not, ◌&&◌, Bool-cases, Option, none, some, List,
  [], ◌∷◌, ◌==◌, All, All-append, codes,
}
use blindfold.Core.SafeRef.{Text, strip_prefix}
use blindfold.Diff.Text
use blindfold.Diff.Text.{lines, is_blank}
use blindfold.Diff.Patch.{
  PatchLineKind, context, removed, Hunk, FilePatch, Patch, ok, FileBuilder, finish_section,
  HunkBuilder, push, finish_lines, ok_or, invalid_hunk_header,
}
use blindfold.Diff.Parser.{
  Parsing, finish_hunk, finish_hunk_in, finish_active, finish_file, finish_file_in, begin_file,
  begin_hunk, begin_in, parse_hunk_header, new_hunk, split_body, parse_range, parse_line,
  parse_lines, sections, initial, parse_patch, is_empty,
}
use blindfold.Diff.Parser.Steps.{
  Ensures, Ensures-bind, Ensures-then, Ensures-intro, Ensures-ok, header_line-HeaderKept, hunks_of,
  parse_line-Ensures, parse_lines-Ensures,
}
use blindfold.Diff.Parser.Numbering.{
  IsNumberedHunk, IsBuilt, pushed, push_kind-pushed, pushed-IsBuilt, OnSome,
}

abbrev AreNumbered : List Hunk → Type 0
AreNumbered = All IsNumberedHunk

-- What holds while a patch is read.
record Inv (s : Parsing) : Type 0 where
  files : All (λ f. AreNumbered f.hunks) s.files
  file : AreNumbered (hunks_of s.file)
  hunk : OnSome IsBuilt s.hunk

pub push-pushed :
    (line : Text) (b c : HunkBuilder)
    → push line b ≡ ok c
    → (kind : PatchLineKind) × (content : Text) × (c ≡ pushed kind content b)
unfolding push
push-pushed [] b c e = absurd (ground (arith, e))
push-pushed (x ∷ content) b c e = elim (Bool-cases (x == 32)) [
  | inl t ↦ (context, content, push-ok (rw t at e) ∙ push_kind-pushed context content b)
  | inr f ↦ elim (Bool-cases (x == 43)) [
    | inl t ↦ (
      PatchLineKind.added,
      content,
      push-ok (rw (f, t) at e) ∙ push_kind-pushed PatchLineKind.added content b,
    )
    | inr g ↦ elim (Bool-cases (x == 45)) [
      | inl t ↦ (removed, content, push-ok (rw (f, g, t) at e) ∙ push_kind-pushed removed content b)
      | inr h ↦ absurd (cc (rw (f, g, h) at e))
    ]
  ]
]
  where
    push-ok : {x y : HunkBuilder} → ok x ≡ ok y → y ≡ x
    push-ok p = cc

push-IsBuilt : (line : Text) (b c : HunkBuilder) → IsBuilt b → push line b ≡ ok c → IsBuilt c
push-IsBuilt line b c h e =
    let (kind, content, same) = push-pushed line b c e in
    subst IsBuilt (sym same) (pushed-IsBuilt kind content b h)

-- A hunk is finished exactly with the counts of its header.
pub finish_lines-ok :
    (b : HunkBuilder) (h : Hunk)
    → finish_lines b ≡ ok h
    → (b.old_seen ≡ b.old_count)
      × (b.new_seen ≡ b.new_count)
      × (h ≡ record { old_start = b.old_start; new_start = b.new_start; lines = b.lines })
unfolding finish_lines
finish_lines-ok b h e = (ground (arith, e), ground (arith, e), ground (arith, e))

finish_lines-IsNumbered : (b : HunkBuilder) → IsBuilt b → Ensures IsNumberedHunk (finish_lines b)
finish_lines-IsNumbered b built =
    Ensures-intro IsNumberedHunk (finish_lines b)
      (λ h e. subst IsNumberedHunk (sym (finish_lines-ok b h e).2) built.numbered)

finish_hunk-Inv : (s : Parsing) → Inv s → Ensures (λ t. Inv t × (t.hunk ≡ none)) (finish_hunk s)
unfolding finish_hunk
finish_hunk-Inv s v = go s.hunk refl v.hunk
  where
    active :
        (b : HunkBuilder) (file : Option FileBuilder)
        → IsBuilt b
        → AreNumbered (hunks_of file)
        → Ensures (λ t. Inv t × (t.hunk ≡ none)) (finish_active s b file)
    active b none h hs = tt
    active b (some f) h hs =
        Ensures-bind IsNumberedHunk (λ t. Inv t × (t.hunk ≡ none)) (finish_lines b) _
          (finish_lines-IsNumbered b h)
          (λ hunk n. (
            record {
              files = v.files;
              file = All-append IsNumberedHunk f.hunks (hunk ∷ []) hs (n, tt);
              hunk = tt;
            },
            refl,
          ))

    go :
        (o : Option HunkBuilder)
        → s.hunk ≡ o
        → OnSome IsBuilt o
        → Ensures (λ t. Inv t × (t.hunk ≡ none)) (finish_hunk_in s o)
    go none e h = (v, e)
    go (some b) e h = active b s.file h v.file

finish_file-Inv : (s : Parsing) → Inv s → Inv (finish_file s)
unfolding finish_file finish_section
finish_file-Inv s v = go s.file v.file
  where
    go : (file : Option FileBuilder) → AreNumbered (hunks_of file) → Inv (finish_file_in s file)
    go none h = v
    go (some b) h = record {
      files = All-append (λ (f : FilePatch). AreNumbered f.hunks) s.files _ v.files (h, tt);
      file = tt;
      hunk = v.hunk;
    }

begin_file-Inv : (line : Text) (s : Parsing) → Inv s → Ensures Inv (begin_file line s)
unfolding begin_file
begin_file-Inv line s v =
    Ensures-bind (λ t. Inv t × (t.hunk ≡ none)) Inv (finish_hunk s) _ (finish_hunk-Inv s v)
      (λ t h. let w = finish_file-Inv t h.0 in record { files = w.files; file = tt; hunk = w.hunk })

empty_hunk : (a b c d : ℕ) → IsBuilt (new_hunk a b c d)
empty_hunk a b c d = record { numbered = tt; old = refl; new = refl }

parse_hunk_header-IsBuilt : (line : Text) → Ensures IsBuilt (parse_hunk_header line)
unfolding parse_hunk_header
parse_hunk_header-IsBuilt line =
    Ensures-then IsBuilt (ok_or (split_body (strip_prefix line (codes "@@ -"))) invalid_hunk_header)
      _
      (λ parts.
        Ensures-then IsBuilt (ok_or (Text.split_once parts.0 (codes " +")) invalid_hunk_header) _
          (λ ranges. Ensures-then IsBuilt (parse_range ranges.0) _ (λ old.
            Ensures-then IsBuilt (parse_range ranges.1)
              (λ new. ok (new_hunk old.0 old.1 new.0 new.1))
              (λ new. empty_hunk old.0 old.1 new.0 new.1))))

begin_hunk-Inv : (line : Text) (s : Parsing) → Inv s → Ensures Inv (begin_hunk line s)
unfolding begin_hunk
begin_hunk-Inv line s v =
    Ensures-bind (λ t. Inv t × (t.hunk ≡ none)) Inv (finish_hunk s) _ (finish_hunk-Inv s v)
      (λ t h. go t h.0 t.file refl)
  where
    go :
        (t : Parsing)
        → Inv t
        → (file : Option FileBuilder) → t.file ≡ file
        → Ensures Inv (begin_in line t file)
    go t w none e = tt
    go t w (some b) e =
        Ensures-bind IsBuilt Inv (parse_hunk_header line) _ (parse_hunk_header-IsBuilt line)
          (λ hunk h. record { files = w.files; file = w.file; hunk = h })

parse_line-Inv : (line : Text) (s : Parsing) → Inv s → Ensures Inv (parse_line line s)
parse_line-Inv line s v =
    parse_line-Ensures Inv line s (begin_file-Inv line s v) (begin_hunk-Inv line s v)
      (λ e.
        let k = header_line-HeaderKept line s in
        record {
          files = subst (All (λ (f : FilePatch). AreNumbered f.hunks)) (sym k.files) v.files;
          file = subst AreNumbered (sym k.hunks) v.file;
          hunk = subst (OnSome IsBuilt) (sym k.hunk) v.hunk;
        })
      v
      (λ b c e p. record {
        files = v.files;
        file = v.file;
        hunk = push-IsBuilt line b c (subst (OnSome IsBuilt) e v.hunk) p;
      })

pub sections-files :
    (input : Text) (files : List FilePatch) (p : Patch)
    → sections input files ≡ ok p
    → files ≡ p.files
sections-files input files p e = elim (Bool-cases (is_empty files && not (is_blank input))) [
  | inl t ↦ absurd (cc (rw t at e))
  | inr f ↦ ground (arith, rw f at e)
]

-- In what `parse_patch` returns, the lines of each hunk are numbered from its starts on without gaps:
-- a context line has the next number of both files, an added line that of the new file only, and a
-- removed line that of the old file only. Numbers wrap around at 2^64.
pub parse_patch-IsNumbered :
    (input : Text) (p : Patch)
    → parse_patch input ≡ ok p
    → All (λ f. All IsNumberedHunk f.hunks) p.files
unfolding parse_patch
parse_patch-IsNumbered input p e =
    Ensures-ok AreFiles (parse_patch input) p
      (Ensures-bind Inv AreFiles (parse_lines (lines input) initial) _
        (parse_lines-Ensures Inv parse_line-Inv (lines input) initial
          (record { files = tt; file = tt; hunk = tt }))
        (λ s v.
          Ensures-bind (λ t. Inv t × (t.hunk ≡ none)) AreFiles (finish_hunk s) _
            (finish_hunk-Inv s v)
            (λ t h. Ensures-intro AreFiles (sections input (finish_file t).files) (λ q f.
              subst (All (λ (f : FilePatch). AreNumbered f.hunks))
                (sections-files input (finish_file t).files q f) (finish_file-Inv t h.0).files))))
      e
  where
    AreFiles : Patch → Type 0
    AreFiles q = All (λ f. AreNumbered f.hunks) q.files
