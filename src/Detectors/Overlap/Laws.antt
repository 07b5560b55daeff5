-- ===== src/Detectors/Overlap/Laws.antt =====
-- What `resolve_overlaps` promises, for every unstable sort.
use mathlib.Core.List.Permᴰ
use blindfold.Prelude.{
  ◌≤◌, ◌≡◌, true, List, [], Memᴰ, arith, All, AllPairs, All-perm, All-map, All-of_forall, All-mem,
  AllPairs-perm, AllPairs-both, mem-perm,
}
use blindfold.Prelude.Sorting.{UnstableSort}
use blindfold.Detectors.Finding.{Finding, IsSpan, overlaps}
use blindfold.Detectors.Overlap.{then_by, priority_le, position_le, select_from, resolve_overlaps}
use blindfold.Detectors.Overlap.Greedy.{
  Apart, Apart-symm, IsBeaten, select_from-Apart, select_from-All, select_from-IsBeaten,
}

-- Each finding ends before the next ones start.
abbrev pub IsRun : List Finding → Type 0
IsRun = AllPairs (λ f g. f.span.end ≤ g.span.start)

abbrev pub HasSpans : List Finding → Type 0
HasSpans = All (λ f. IsSpan f.span)

-- In order and apart, a span ends before the next starts.
end-le-start :
    (f g : Finding)
    → IsSpan f.span
    → IsSpan g.span
    → Apart f g
    → position_le f g ≡ true
    → f.span.end ≤ g.span.start
unfolding position_le overlaps then_by
end-le-start f g v w a p = ground arith

module _ (by_priority : UnstableSort priority_le) (by_position : UnstableSort position_le)
    (findings : List Finding) where
  -- For every pair of unstable sorts, every finding that `resolve_overlaps` returns is one of the
  -- given findings.
  pub resolve_overlaps-subset :
      All (λ f. Memᴰ f findings) (resolve_overlaps by_priority by_position findings)
  unfolding resolve_overlaps
  resolve_overlaps-subset = All-perm _ (Permᴰ.symm (by_position.perm _)) (
      select_from-All _ [] _ tt
        (All-perm _ (Permᴰ.symm (by_priority.perm findings)) (All-of_forall _ findings (λ f m. m))))

  module _ (valid : HasSpans findings) where
    pub resolve_overlaps-HasSpans : HasSpans (resolve_overlaps by_priority by_position findings)
    resolve_overlaps-HasSpans = All-map _ _ (λ f m. All-mem _ m valid) _ resolve_overlaps-subset

    -- If every given finding has a span that is not empty, then in the result of
    -- `resolve_overlaps` each finding ends at or before the start of every finding after it: the
    -- result is ascending and free of overlaps.
    pub resolve_overlaps-IsRun : IsRun (resolve_overlaps by_priority by_position findings)
    unfolding resolve_overlaps
    resolve_overlaps-IsRun =
        let selected = select_from [] (by_priority.sort findings) in
        AllPairs-both Apart _ _ (λ f. IsSpan f.span) (λ f g v w a p. end-le-start f g v w a p)
          (by_position.sort selected) resolve_overlaps-HasSpans
          (AllPairs-perm Apart Apart-symm (Permᴰ.symm (by_position.perm selected))
            (select_from-Apart [] (by_priority.sort findings) tt))
          (by_position.ascending selected)

    -- If every given finding has a span that is not empty, then each of them overlaps a finding of
    -- the result that does not come after it in the priority order (a finding that is returned is
    -- its own witness).
    pub resolve_overlaps-IsBeaten :
        All (IsBeaten (resolve_overlaps by_priority by_position findings)) findings
    unfolding resolve_overlaps
    resolve_overlaps-IsBeaten =
        let sorted = by_priority.sort findings in
        All-map _ _
          (λ f b. record {
            winner = b.winner;
            kept = mem-perm (Permᴰ.symm (by_position.perm (select_from [] sorted))) b.kept;
            overlap = b.overlap;
            before = b.before;
          })
          findings
          (All-perm _ (by_priority.perm findings) (
            select_from-IsBeaten [] sorted
              (All-perm _ (Permᴰ.symm (by_priority.perm findings)) valid)
              (by_priority.ascending findings) tt))
