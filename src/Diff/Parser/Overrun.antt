-- ===== src/Diff/Parser/Overrun.antt =====
-- A hunk that has more lines than its header says is never accepted, whatever follows.
use blindfold.Prelude.{
  ◌<◌, ◌≡◌, ◌≢◌, ◌⊎◌, refl, sym, subst, ap, ◌∙◌, inl, inr, arith, Option, none, some, List, ◌∷◌,
  ◌++◌, codes,
}
use blindfold.Core.SafeRef.{Text}
use blindfold.Diff.Text.{lines}
use blindfold.Diff.Patch.{removed, Patch, ok, FileBuilder, HunkBuilder, push, finish_lines}
use blindfold.Diff.Parser.{
  Parsing, finish_hunk, finish_hunk_in, finish_active, begin_file, begin_hunk, parse_line,
  parse_lines, initial, parse_patch,
}
use blindfold.Diff.Parser.Steps.{
  Ensures, Ensures-bind, Ensures-intro, Ensures-ok, parse_line-Ensures, parse_lines-Ensures,
  parse_lines-append,
}
use blindfold.Diff.Parser.Numbering.{pushed, push_kind-pushed}
use blindfold.Diff.Parser.Numbered.{push-pushed, finish_lines-ok}

abbrev IsOver : HunkBuilder → Type 0
IsOver b = (b.old_count < b.old_seen) ⊎ (b.new_count < b.new_seen)

record Overrun (s : Parsing) : Type 0 where
  hunk : HunkBuilder
  active : s.hunk ≡ some hunk
  over : IsOver hunk

finish_lines_over : (b : HunkBuilder) → IsOver b → Ensures (λ h. ⊥) (finish_lines b)
finish_lines_over b o =
    Ensures-intro (λ h. ⊥) (finish_lines b)
      (λ h e.
        let k = finish_lines-ok b h e in
        elim o [ inl x ↦ absurd (omega (arith, k.0)) | inr y ↦ absurd (omega (arith, k.1)) ])

finish_hunk_over : (s : Parsing) → Overrun s → Ensures (λ t. ⊥) (finish_hunk s)
unfolding finish_hunk
finish_hunk_over s v = subst (λ o. Ensures (λ t. ⊥) (finish_hunk_in s o)) (sym v.active) (go s.file)
  where
    go : (file : Option FileBuilder) → Ensures (λ t. ⊥) (finish_active s v.hunk file)
    go none = tt
    go (some b) =
        Ensures-bind (λ h. ⊥) (λ t. ⊥) (finish_lines v.hunk) _ (finish_lines_over v.hunk v.over)
          (λ h x. x)

push-IsOver : (line : Text) (b c : HunkBuilder) → IsOver b → push line b ≡ ok c → IsOver c
push-IsOver line b c o e =
    let (kind, content, same) = push-pushed line b c e in
    subst IsOver (sym same) (elim o [ inl x ↦ inl (omega arith) | inr y ↦ inr (omega arith) ])

parse_line-Overrun : (line : Text) (s : Parsing) → Overrun s → Ensures Overrun (parse_line line s)
unfolding begin_file begin_hunk
parse_line-Overrun line s v =
    parse_line-Ensures Overrun line s
      (Ensures-bind (λ t. ⊥) Overrun (finish_hunk s) _ (finish_hunk_over s v) (λ t x. absurd x))
      (Ensures-bind (λ t. ⊥) Overrun (finish_hunk s) _ (finish_hunk_over s v) (λ t x. absurd x))
      (λ e. absurd (cc (e, v.active))) v
      (λ b c e p. record {
        hunk = c;
        active = refl;
        over = push-IsOver line b c (subst IsOver (some-inj (sym v.active ∙ e)) v.over) p;
      })
  where
    some-inj : {x y : HunkBuilder} → some x ≡ some y → x ≡ y
    some-inj p = cc

next_line-Overrun :
    (path : Text) (s : Parsing) (hunk : HunkBuilder)
    → s.hunk ≡ some hunk
    → hunk.old_seen ≡ hunk.old_count
    → Ensures Overrun (parse_line (codes "--- " ++ path) s)
unfolding parse_line push
next_line-Overrun path s hunk active full = rw active (record {
  hunk = pushed removed (codes "-- " ++ path) hunk;
  active = ap some (push_kind-pushed removed (codes "-- " ++ path) hunk);
  over = inl (omega arith);
})

-- Let the lines of a text be read up to a hunk that has all the lines of the old file that its header
-- says. If the next line is `--- ` and a path, `parse_patch` does not accept the text, whatever
-- follows.
pub parse_patch-overrun :
    (input path : Text) (before rest : List Text) (s : Parsing) (hunk : HunkBuilder)
    → lines input ≡ before ++ ((codes "--- " ++ path) ∷ rest)
    → parse_lines before initial ≡ ok s
    → s.hunk ≡ some hunk
    → hunk.old_seen ≡ hunk.old_count
    → (p : Patch) → parse_patch input ≢ ok p
unfolding parse_patch
parse_patch-overrun input path before rest s hunk split run active full p e =
    let line = codes "--- " ++ path in
    let over : IsOver (pushed removed (codes "-- " ++ path) hunk) = inl (omega arith) in
    let at_line =
      Ensures-bind Overrun Overrun (parse_line line s) (parse_lines rest)
        (next_line-Overrun path s hunk active full)
        (parse_lines-Ensures Overrun parse_line-Overrun rest) in
    let all =
      subst (Ensures Overrun)
        (sym (
          ap (λ l. parse_lines l initial) split
          ∙ parse_lines-append before (line ∷ rest) initial s run))
        at_line in
    Ensures-ok (λ q. ⊥) (parse_patch input) p
      (Ensures-bind Overrun (λ q. ⊥) (parse_lines (lines input) initial) _ all
        (λ t v.
          Ensures-bind (λ u. ⊥) (λ q. ⊥) (finish_hunk t) _ (finish_hunk_over t v)
            (λ u x. absurd x)))
      e
