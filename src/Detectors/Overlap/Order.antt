-- ===== src/Detectors/Overlap/Order.antt =====
-- The two sort keys are total orders, so that a sort by either exists.
use blindfold.Prelude.{ℕ, ◌≡◌, Bool, true, false, leb, arith}
use blindfold.Prelude.Sorting.{UnstableSort, insertion_sort}
use blindfold.Detectors.Finding.{Finding, kind_rank}
use blindfold.Detectors.Overlap.{then_by, priority_le, position_le}

module _ (a b c : ℕ) (r s t : Bool) where
  -- ascending by a component, then by the rest
  then_by_trans :
      (r ≡ true → s ≡ true → t ≡ true)
      → then_by a b r ≡ true
      → then_by b c s ≡ true
      → then_by a c t ≡ true
  unfolding then_by
  then_by_trans rest p q = ground arith

  -- descending by a component
  then_by_trans_reverse :
      (r ≡ true → s ≡ true → t ≡ true)
      → then_by b a r ≡ true
      → then_by c b s ≡ true
      → then_by c a t ≡ true
  unfolding then_by
  then_by_trans_reverse rest p q = ground arith

leb_trans : (a b c : ℕ) → leb a b ≡ true → leb b c ≡ true → leb a c ≡ true
leb_trans a b c p q = ground arith

pub priority_le-total : (f g : Finding) → priority_le f g ≡ false → priority_le g f ≡ true
unfolding priority_le then_by
priority_le-total f g h = ground arith

pub priority_le_trans :
    (f g h : Finding) → priority_le f g ≡ true → priority_le g h ≡ true → priority_le f h ≡ true
unfolding priority_le
priority_le_trans f g h = then_by_trans_reverse _ _ _ _ _ _ (
    then_by_trans_reverse _ _ _ _ _ _ (
      then_by_trans f.span.start g.span.start h.span.start _ _ _
        (leb_trans (kind_rank f.kind) (kind_rank g.kind) (kind_rank h.kind))))

pub priority_le_refl : (f : Finding) → priority_le f f ≡ true
unfolding priority_le then_by
priority_le_refl f = ground arith

pub position_le-total : (f g : Finding) → position_le f g ≡ false → position_le g f ≡ true
unfolding position_le then_by
position_le-total f g h = ground arith

pub position_le_trans :
    (f g h : Finding) → position_le f g ≡ true → position_le g h ≡ true → position_le f h ≡ true
unfolding position_le
position_le_trans f g h =
    then_by_trans f.span.start g.span.start h.span.start _ _ _
      (leb_trans f.span.end g.span.end h.span.end)

unfoldable pub priority_sort : UnstableSort priority_le
priority_sort =
    insertion_sort priority_le (record { total = priority_le-total; trans = priority_le_trans })

unfoldable pub position_sort : UnstableSort position_le
position_sort =
    insertion_sort position_le (record { total = position_le-total; trans = position_le_trans })
