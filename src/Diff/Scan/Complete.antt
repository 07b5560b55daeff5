-- ===== src/Diff/Scan/Complete.antt =====
-- That a report leaves nothing out.
use mathlib.Core.List.Memᴰ
use blindfold.Prelude.{
  ℕ, ◌+◌, ◌≡◌, ◌≢◌, refl, sym, subst, ap, ◌∙◌, arith, Option, none, some, List, [], ◌∷◌, ◌++◌, Memᴰ,
  length,
}
use blindfold.Core.SafeRef.{Text}
use blindfold.Diff.Patch.{
  FileChange, modified, deleted, renamed, binary, PatchLineKind, context, removed, PatchLine, Hunk,
  FilePatch, Patch,
}
use blindfold.Diff.Scan.{
  Detection, Detector, Finding, finding_of, Scanning, added_line, numbered_line, line_of_kind,
  scan_lines, scan_hunks, scan_path, scan_change, scan_files, scan_with,
}

-- A place in a patch that a scan looks at.
pub record IsScanned (p : Patch) (path : Text) (hunk : Hunk) (before : List PatchLine)
    (line : PatchLine) (number : ℕ) : Type 0 where
  pub file : FilePatch
  pub in_patch : Memᴰ file p.files
  pub is_text : file.change ≢ binary
  pub named : file.new_path ≡ some path
  pub in_file : Memᴰ hunk file.hunks
  pub after : List PatchLine
  pub splits : hunk.lines ≡ before ++ (line ∷ after)
  pub is_added : line.kind ≡ PatchLineKind.added
  pub numbered : line.new_line ≡ some number

module _ (detect : Detector) where
  module _ (f : Finding) where
    abbrev IsFound : Scanning → Type 0
    IsFound s = Memᴰ f s.found

    numbered_line-keeps :
        (path : Text) (lines : List PatchLine) (index : ℕ) (content : Text) (o : Option ℕ)
        (s : Scanning)
        → IsFound s
        → IsFound (numbered_line detect path lines index content o s)
    numbered_line-keeps path lines index content none s h = h
    numbered_line-keeps path lines index content (some n) s h = Memᴰ.append_left _ h

    line_of_kind-keeps :
        (path : Text) (lines : List PatchLine) (index : ℕ) (line : PatchLine) (kind : PatchLineKind)
        (s : Scanning)
        → IsFound s
        → IsFound (line_of_kind detect path lines index line kind s)
    line_of_kind-keeps path lines index line context s h = h
    line_of_kind-keeps path lines index line PatchLineKind.added s h =
        numbered_line-keeps path lines index line.content line.new_line s h
    line_of_kind-keeps path lines index line removed s h = h

    scan_lines-keeps :
        (path : Text) (lines : List PatchLine) (index : ℕ) (rest : List PatchLine) (s : Scanning)
        → IsFound s
        → IsFound (scan_lines detect path lines index rest s)
    unfolding scan_lines
    scan_lines-keeps path lines index [] s h = h
    scan_lines-keeps path lines index (line ∷ rest) s h =
        scan_lines-keeps path lines (index + 1) rest _
          (line_of_kind-keeps path lines index line line.kind s h)

    scan_hunks-keeps :
        (path : Text) (hunks : List Hunk) (s : Scanning)
        → IsFound s
        → IsFound (scan_hunks detect path hunks s)
    unfolding scan_hunks
    scan_hunks-keeps path [] s h = h
    scan_hunks-keeps path (hunk ∷ hunks) s h =
        scan_hunks-keeps path hunks _ (scan_lines-keeps path hunk.lines 0 hunk.lines s h)

    scan_path-keeps :
        (hunks : List Hunk) (o : Option Text) (s : Scanning)
        → IsFound s
        → IsFound (scan_path detect hunks o s)
    scan_path-keeps hunks none s h = h
    scan_path-keeps hunks (some path) s h = scan_hunks-keeps path hunks s h

    scan_change-keeps :
        (file : FilePatch) (change : FileChange) (s : Scanning)
        → IsFound s
        → IsFound (scan_change detect file change s)
    scan_change-keeps file binary s h = h
    scan_change-keeps file FileChange.added s h = scan_path-keeps file.hunks file.new_path s h
    scan_change-keeps file modified s h = scan_path-keeps file.hunks file.new_path s h
    scan_change-keeps file deleted s h = scan_path-keeps file.hunks file.new_path s h
    scan_change-keeps file renamed s h = scan_path-keeps file.hunks file.new_path s h

    scan_files-keeps :
        (files : List FilePatch) (s : Scanning) → IsFound s → IsFound (scan_files detect files s)
    unfolding scan_files
    scan_files-keeps [] s h = h
    scan_files-keeps (file ∷ files) s h =
        scan_files-keeps files _ (scan_change-keeps file file.change s h)

  module _ (path : Text) (line : PatchLine) (number : ℕ) (d : Detection)
      (is_added : line.kind ≡ PatchLineKind.added) (numbered : line.new_line ≡ some number) where
    module _ (lines : List PatchLine) (index : ℕ)
        (detected : Memᴰ d (detect (added_line path lines index line.content number))) where
      abbrev wanted : Finding
      wanted = finding_of (added_line path lines index line.content number) d

      line_of_kind-finds :
          (s : Scanning) → IsFound wanted (line_of_kind detect path lines index line line.kind s)
      line_of_kind-finds s =
          subst (λ k. IsFound wanted (line_of_kind detect path lines index line k s)) (sym is_added)
            (subst (λ o. IsFound wanted (numbered_line detect path lines index line.content o s))
              (sym numbered)
              (Memᴰ.append_right s.found
                (Memᴰ.map (finding_of (added_line path lines index line.content number)) detected)))

      scan_lines-finds :
          (before after : List PatchLine) (start : ℕ) (s : Scanning)
          → start + length before ≡ index
          → IsFound wanted (scan_lines detect path lines start (before ++ (line ∷ after)) s)
      unfolding scan_lines
      scan_lines-finds [] after start s e =
          let same : start ≡ index = omega arith in
          scan_lines-keeps wanted path lines (start + 1) after _ (
            subst (λ i. IsFound wanted (line_of_kind detect path lines i line line.kind s))
              (sym same) (line_of_kind-finds s))
      scan_lines-finds (first ∷ before) after start s e =
          scan_lines-finds before after (start + 1) _ (omega arith)

    scan_hunks-finds :
        (hunks : List Hunk) (hunk : Hunk) (before after : List PatchLine) (s : Scanning)
        → hunk.lines ≡ before ++ (line ∷ after)
        → (detected : Memᴰ d
            (detect (added_line path hunk.lines (length before) line.content number)))
        → Memᴰ hunk hunks
        → IsFound
            (finding_of (added_line path hunk.lines (length before) line.content number) d)
            (scan_hunks detect path hunks s)
    unfolding scan_hunks
    scan_hunks-finds [] hunk before after s e detected m = elim m [ ]
    scan_hunks-finds (h ∷ hunks) hunk before after s e detected (Memᴰ.head same) =
        let f = wanted hunk.lines (length before) detected in
        subst (λ g. IsFound f (scan_hunks detect path (g ∷ hunks) s)) same
          (scan_hunks-keeps f path hunks _ (
            subst (λ l. IsFound f (scan_lines detect path hunk.lines 0 l s)) (sym e)
              (scan_lines-finds hunk.lines (length before) detected before after 0 s
                (omega arith))))
    scan_hunks-finds (h ∷ hunks) hunk before after s e detected (Memᴰ.tail m) =
        scan_hunks-finds hunks hunk before after _ e detected m

  scan_change_text :
      (file : FilePatch) (path : Text) (s : Scanning)
      → file.change ≢ binary
      → file.new_path ≡ some path
      → scan_change detect file file.change s ≡ scan_hunks detect path file.hunks s
  scan_change_text file path s t named =
      go file.change refl ∙ ap (λ o. scan_path detect file.hunks o s) named
    where
      go :
          (change : FileChange)
          → file.change ≡ change
          → scan_change detect file change s ≡ scan_path detect file.hunks file.new_path s
      go binary e = absurd (t e)
      go FileChange.added e = refl
      go modified e = refl
      go deleted e = refl
      go renamed e = refl

  module _ (p : Patch) (path : Text) (hunk : Hunk) (before : List PatchLine) (line : PatchLine)
      (number : ℕ) (d : Detection) (place : IsScanned p path hunk before line number)
      (detected : Memᴰ d
        (detect (added_line path hunk.lines (length before) line.content number))) where
    abbrev here : Finding
    here = finding_of (added_line path hunk.lines (length before) line.content number) d

    scan_files-finds :
        (files : List FilePatch) (s : Scanning)
        → Memᴰ place.file files
        → IsFound here (scan_files detect files s)
    unfolding scan_files
    scan_files-finds [] s m = elim m [ ]
    scan_files-finds (file ∷ files) s (Memᴰ.head same) =
        subst (λ g. IsFound here (scan_files detect (g ∷ files) s)) same
          (scan_files-keeps here files _ (
            subst (IsFound here)
              (sym (scan_change_text place.file path s place.is_text place.named))
              (scan_hunks-finds path line number d place.is_added place.numbered place.file.hunks
                hunk before place.after s place.splits detected place.in_file)))
    scan_files-finds (file ∷ files) s (Memᴰ.tail m) = scan_files-finds files _ m

    -- Every detection in an added line of a text file that a patch leaves in place is reported, with
    -- the path, the line number and the context of that line.
    pub scan_with-finds : Memᴰ here (scan_with detect p).findings
    unfolding scan_with
    scan_with-finds = scan_files-finds p.files _ place.in_patch
