-- ===== src/Detectors/Overlap.antt =====
-- crates/blindfold-detectors/src/overlap.rs: of overlapping findings the first in priority order
-- is kept. Both sorts are `sort_unstable_by_key`, so they are taken as `UnstableSort`.
pub mod Order
pub mod Greedy
pub mod Laws
use blindfold.Prelude.{
  ℕ, Bool, true, false, not, ◌&&◌, List, [], ◌∷◌, ◌++◌, ltb, leb, if◌then◌else◌,
}
use blindfold.Prelude.Sorting.{UnstableSort}
use blindfold.Detectors.Finding.{Finding, len, overlaps, confidence_rank, kind_rank}

-- One component of a tuple comparison; `Reverse` swaps the arguments.
unfoldable pub then_by : ℕ → ℕ → Bool → Bool
then_by a b rest = if ltb a b then true else if ltb b a then false else rest

-- The first key: (Reverse(confidence), Reverse(length), start, kind).
unfoldable pub priority_le : Finding → Finding → Bool
unfolding len
priority_le f g = then_by (confidence_rank g.confidence) (confidence_rank f.confidence) (
    then_by (len g.span) (len f.span)
      (then_by f.span.start g.span.start (leb (kind_rank f.kind) (kind_rank g.kind))))

-- The second key: (start, end).
unfoldable pub position_le : Finding → Finding → Bool
position_le f g = then_by f.span.start g.span.start (leb f.span.end g.span.end)

-- `selected.iter().all(|existing| !existing.span().overlaps(finding.span()))`
unfoldable pub is_free : List Finding → Finding → Bool
unfolding overlaps
is_free [] f = true
is_free (g ∷ selected) f = not (overlaps g.span f.span) && is_free selected f

-- The loop, over the findings that are left.
unfoldable pub select_from : List Finding → List Finding → List Finding
unfolding is_free
select_from selected [] = selected
select_from selected (f ∷ findings) =
    select_from (if is_free selected f then selected ++ f ∷ [] else selected) findings

module _ (by_priority : UnstableSort priority_le) (by_position : UnstableSort position_le) where
  unfoldable pub resolve_overlaps : List Finding → List Finding
  unfolding select_from
  resolve_overlaps findings = by_position.sort (select_from [] (by_priority.sort findings))
