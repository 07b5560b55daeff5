-- ===== src/Diff/Scan/Sources.antt =====
-- The added line that each finding of a report is from.
use mathlib.Core.List.{append_assoc}
use blindfold.Prelude.{
  ℕ, ◌+◌, ◌≤◌, ◌≡◌, ◌≢◌, refl, sym, subst, ◌∙◌, arith, Option, none, some, List, [], ◌∷◌, ◌++◌, map,
  Memᴰ, length, All, All-append, length-append,
}
use blindfold.Core.SafeRef.{Text}
use blindfold.Diff.Patch.{
  FileChange, modified, deleted, renamed, binary, PatchLineKind, context, removed, PatchLine, Hunk,
  FilePatch, Patch,
}
use blindfold.Diff.Scan.Paths.{PathRisk, classify_path}
use blindfold.Diff.Scan.{
  severity_rank, elevate, Detection, Detector, Finding, finding_of, Scanning, added_line, inspect,
  numbered_line, line_of_kind, scan_lines, scan_hunks, scan_path, scan_change, scan_files,
  scan_with,
}

module _ (detect : Detector) where
  -- The finding stands at an added line of the patch, in a file that is still there and is text, and
  -- was detected in that line.
  pub record IsLocated (p : Patch) (f : Finding) : Type 0 where
    pub file : FilePatch
    pub in_patch : Memᴰ file p.files
    pub is_text : file.change ≢ binary
    pub path : file.new_path ≡ some f.path
    pub hunk : Hunk
    pub in_file : Memᴰ hunk file.hunks
    pub before : List PatchLine
    pub line : PatchLine
    pub after : List PatchLine
    pub splits : hunk.lines ≡ before ++ (line ∷ after)
    pub is_added : line.kind ≡ PatchLineKind.added
    pub number : line.new_line ≡ some f.line
    pub detection : Detection
    pub detected :
        Memᴰ detection (detect (added_line f.path hunk.lines (length before) line.content f.line))
    pub same_rule : f.rule_id ≡ detection.rule_id
    pub as_severe : severity_rank detection.severity ≤ severity_rank f.severity

  elevate_grows :
      (d : Detection) (risk : PathRisk)
      → severity_rank d.severity ≤ severity_rank (elevate d.severity risk)
  unfolding elevate
  elevate_grows d risk = ground arith

  AllLocated : Patch → Scanning → Type 0
  AllLocated p s = All (IsLocated p) s.found

  module _ (p : Patch) (file : FilePatch) (in_patch : Memᴰ file p.files)
      (is_text : file.change ≢ binary) (path : Text) (named : file.new_path ≡ some path) where
    module _ (hunk : Hunk) (in_file : Memᴰ hunk file.hunks) where
      inspect-IsLocated :
          (before : List PatchLine) (line : PatchLine) (after : List PatchLine) (number : ℕ)
          (s : Scanning)
          → hunk.lines ≡ before ++ (line ∷ after)
          → line.kind ≡ PatchLineKind.added
          → line.new_line ≡ some number
          → All (IsLocated p) s.found
          → All
              (IsLocated p)
              (inspect detect
                (added_line path hunk.lines (length before) line.content number)
                s).found
      inspect-IsLocated before line after number s splits is_added numbered h =
          let a = added_line path hunk.lines (length before) line.content number in
          All-append (IsLocated p) s.found (map (finding_of a) (detect a)) h
            (found (detect a) (λ d m. m))
        where
          found :
              (ds : List Detection)
              → ((d : Detection)
                  → Memᴰ d ds
                  → Memᴰ d
                      (detect (added_line path hunk.lines (length before) line.content number)))
              → All (IsLocated p) (
                  map
                    (finding_of (added_line path hunk.lines (length before) line.content number))
                    ds)
          found [] sub = tt
          found (d ∷ ds) sub = (
            record {
              file = file;
              in_patch = in_patch;
              is_text = is_text;
              path = named;
              hunk = hunk;
              in_file = in_file;
              before = before;
              line = line;
              after = after;
              splits = splits;
              is_added = is_added;
              number = numbered;
              detection = d;
              detected = sub d (Memᴰ.head refl);
              same_rule = refl;
              as_severe = elevate_grows d (classify_path path);
            },
            found ds (λ e m. sub e (Memᴰ.tail m)),
          )

      line_of_kind-IsLocated :
          (before : List PatchLine) (line : PatchLine) (after : List PatchLine) (s : Scanning)
          → hunk.lines ≡ before ++ (line ∷ after)
          → All (IsLocated p) s.found
          → All
              (IsLocated p)
              (line_of_kind detect path hunk.lines (length before) line line.kind s).found
      line_of_kind-IsLocated before line after s splits h = by_kind line.kind refl
        where
          by_number :
              (o : Option ℕ)
              → line.new_line ≡ o
              → line.kind ≡ PatchLineKind.added
              → All
                  (IsLocated p)
                  (numbered_line detect path hunk.lines (length before) line.content o s).found
          by_number none e k = h
          by_number (some number) e k = inspect-IsLocated before line after number s splits k e h

          by_kind :
              (kind : PatchLineKind)
              → line.kind ≡ kind
              → All
                  (IsLocated p)
                  (line_of_kind detect path hunk.lines (length before) line kind s).found
          by_kind context e = h
          by_kind PatchLineKind.added e = by_number line.new_line refl e
          by_kind removed e = h

      scan_lines-IsLocated :
          (before rest : List PatchLine) (index : ℕ) (s : Scanning)
          → index ≡ length before
          → hunk.lines ≡ before ++ rest
          → All (IsLocated p) s.found
          → All (IsLocated p) (scan_lines detect path hunk.lines index rest s).found
      unfolding scan_lines
      scan_lines-IsLocated before [] index s e splits h = h
      scan_lines-IsLocated before (line ∷ rest) index s e splits h =
          scan_lines-IsLocated (before ++ (line ∷ [])) rest (index + 1) _
            (omega (arith, length-append before (line ∷ [])))
            (splits ∙ sym (append_assoc before (line ∷ []) rest))
            (subst
              (λ i.
                All (IsLocated p) (line_of_kind detect path hunk.lines i line line.kind s).found)
              (sym e) (line_of_kind-IsLocated before line rest s splits h))

    scan_hunks-IsLocated :
        (hunks : List Hunk) (s : Scanning)
        → ((h : Hunk) → Memᴰ h hunks → Memᴰ h file.hunks)
        → All (IsLocated p) s.found
        → All (IsLocated p) (scan_hunks detect path hunks s).found
    unfolding scan_hunks
    scan_hunks-IsLocated [] s sub h = h
    scan_hunks-IsLocated (hunk ∷ hunks) s sub h =
        scan_hunks-IsLocated hunks _ (λ g m. sub g (Memᴰ.tail m))
          (scan_lines-IsLocated hunk (sub hunk (Memᴰ.head refl)) [] hunk.lines 0 s refl refl h)

  scan_change-IsLocated :
      (p : Patch) (file : FilePatch) (s : Scanning)
      → Memᴰ file p.files
      → All (IsLocated p) s.found
      → All (IsLocated p) (scan_change detect file file.change s).found
  scan_change-IsLocated p file s m h = by_change file.change refl
    where
      by_path :
          file.change ≢ binary
          → (o : Option Text) → file.new_path ≡ o
          → All (IsLocated p) (scan_path detect file.hunks o s).found
      by_path t none e = h
      by_path t (some path) e = scan_hunks-IsLocated p file m t path e file.hunks s (λ g n. n) h

      by_change :
          (change : FileChange)
          → file.change ≡ change
          → All (IsLocated p) (scan_change detect file change s).found
      by_change binary e = h
      by_change FileChange.added e = by_path (λ k. cc (e, k)) file.new_path refl
      by_change modified e = by_path (λ k. cc (e, k)) file.new_path refl
      by_change deleted e = by_path (λ k. cc (e, k)) file.new_path refl
      by_change renamed e = by_path (λ k. cc (e, k)) file.new_path refl

  scan_files-IsLocated :
      (p : Patch) (files : List FilePatch) (s : Scanning)
      → ((f : FilePatch) → Memᴰ f files → Memᴰ f p.files)
      → All (IsLocated p) s.found
      → All (IsLocated p) (scan_files detect files s).found
  unfolding scan_files
  scan_files-IsLocated p [] s sub h = h
  scan_files-IsLocated p (file ∷ files) s sub h =
      scan_files-IsLocated p files _ (λ f m. sub f (Memᴰ.tail m))
        (scan_change-IsLocated p file s (sub file (Memᴰ.head refl)) h)

  pub scan_with-IsLocated : (p : Patch) → All (IsLocated p) (scan_with detect p).findings
  unfolding scan_with
  scan_with-IsLocated p = scan_files-IsLocated p p.files _ (λ f m. m) tt
