-- ===== src/Detectors/Overlap/Greedy.antt =====
-- The selection loop: what it keeps is disjoint, comes from the input, and beats what it drops.
use blindfold.Prelude.{
  ◌≡◌, refl, subst, true, false, List, [], ◌∷◌, ◌++◌, Memᴰ, inl, inr, arith, Bool-cases, All,
  AllPairs, All-append, All-map, All-mem,
}
use blindfold.Prelude.Sorting.{Ascending}
use blindfold.Detectors.Finding.{Finding, IsSpan, overlaps}
use blindfold.Detectors.Overlap.{priority_le, is_free, select_from}
use blindfold.Detectors.Overlap.Order.{priority_le_refl}

abbrev pub Apart : Finding → Finding → Type 0
Apart g f = overlaps g.span f.span ≡ false

pub Apart-symm : (g f : Finding) → Apart g f → Apart f g
unfolding overlaps
Apart-symm g f h = ground arith

is_free→Apart :
    (selected : List Finding) (f : Finding)
    → is_free selected f ≡ true
    → All (λ g. Apart g f) selected
unfolding is_free
is_free→Apart [] f h = tt
is_free→Apart (g ∷ selected) f h = (ground arith, is_free→Apart selected f (ground arith))

-- A finding that is not free overlaps one that was selected.
is_free-false :
    (selected : List Finding) (f : Finding)
    → is_free selected f ≡ false
    → (g : Finding) × Memᴰ g selected × (overlaps g.span f.span ≡ true)
unfolding is_free
is_free-false [] f h = cc
is_free-false (g ∷ selected) f h = elim (Bool-cases (overlaps g.span f.span)) [
  | inl e ↦ (g, Memᴰ.head refl, e)
  | inr e ↦ let (k, m, o) = is_free-false selected f (ground arith) in (k, Memᴰ.tail m, o)
]

AllPairs-snoc :
    (selected : List Finding) (f : Finding)
    → AllPairs Apart selected
    → All (λ g. Apart g f) selected
    → AllPairs Apart (selected ++ f ∷ [])
AllPairs-snoc [] f h a = (tt, tt)
AllPairs-snoc (g ∷ selected) f h a =
    (All-append (Apart g) selected (f ∷ []) h.0 (a.0, tt), AllPairs-snoc selected f h.1 a.1)

pub select_from-Apart :
    (selected findings : List Finding)
    → AllPairs Apart selected
    → AllPairs Apart (select_from selected findings)
unfolding select_from
select_from-Apart selected [] h = h
select_from-Apart selected (f ∷ findings) h = elim (Bool-cases (is_free selected f)) [
  | inl e ↦ rw e (
      select_from-Apart (selected ++ f ∷ []) findings
        (AllPairs-snoc selected f h (is_free→Apart selected f e)))
  | inr e ↦ rw e (select_from-Apart selected findings h)
]

pub select_from-All {κ} :
    (P : Finding → Type κ) (selected findings : List Finding)
    → All P selected
    → All P findings
    → All P (select_from selected findings)
unfolding select_from
select_from-All P selected [] h k = h
select_from-All P selected (f ∷ findings) h k = elim (Bool-cases (is_free selected f)) [
  | inl e ↦
      rw e
        (select_from-All P (selected ++ f ∷ []) findings (All-append P selected _ h (k.0, tt)) k.1)
  | inr e ↦ rw e (select_from-All P selected findings h k.1)
]

mem-append_left :
    {g : Finding} {xs : List Finding} (ys : List Finding) → Memᴰ g xs → Memᴰ g (xs ++ ys)
mem-append_left ys (Memᴰ.head e) = Memᴰ.head e
mem-append_left ys (Memᴰ.tail m) = Memᴰ.tail (mem-append_left ys m)

mem-snoc : (g : Finding) (xs : List Finding) → Memᴰ g (xs ++ g ∷ [])
mem-snoc g [] = Memᴰ.head refl
mem-snoc g (x ∷ xs) = Memᴰ.tail (mem-snoc g xs)

select_from-keeps :
    {g : Finding} (selected findings : List Finding)
    → Memᴰ g selected
    → Memᴰ g (select_from selected findings)
unfolding select_from
select_from-keeps selected [] m = m
select_from-keeps selected (f ∷ findings) m = elim (Bool-cases (is_free selected f)) [
  | inl e ↦ rw e (select_from-keeps (selected ++ f ∷ []) findings (mem-append_left _ m))
  | inr e ↦ rw e (select_from-keeps selected findings m)
]

-- `f` has lost to a finding of `out` that overlaps it, or stands in `out` itself.
pub record IsBeaten (out : List Finding) (f : Finding) : Type 0 where
  pub winner : Finding
  pub kept : Memᴰ winner out
  pub overlap : overlaps winner.span f.span ≡ true
  pub before : priority_le winner f ≡ true

overlaps_self : (f : Finding) → IsSpan f.span → overlaps f.span f.span ≡ true
unfolding overlaps
overlaps_self f h = ground arith

select_from-free :
    (selected findings : List Finding) (f : Finding)
    → is_free selected f ≡ true
    → select_from (selected ++ f ∷ []) findings ≡ select_from selected (f ∷ findings)
unfolding select_from
select_from-free selected findings f e = rw e

select_from-taken :
    (selected findings : List Finding) (f : Finding)
    → is_free selected f ≡ false
    → select_from selected findings ≡ select_from selected (f ∷ findings)
unfolding select_from
select_from-taken selected findings f e = rw e

pub select_from-IsBeaten :
    (selected findings : List Finding)
    → All (λ f. IsSpan f.span) findings
    → Ascending priority_le findings
    → All (λ g. All (λ f. priority_le g f ≡ true) findings) selected
    → All (IsBeaten (select_from selected findings)) findings
select_from-IsBeaten selected [] v s b = tt
select_from-IsBeaten selected (f ∷ findings) v s b = elim (Bool-cases (is_free selected f)) [
  | inl e ↦
      subst (λ out. All (IsBeaten out) (f ∷ findings)) (select_from-free selected findings f e)
        (
          record {
            winner = f;
            kept = select_from-keeps (selected ++ f ∷ []) findings (mem-snoc f selected);
            overlap = overlaps_self f v.0;
            before = priority_le_refl f;
          },
          select_from-IsBeaten (selected ++ f ∷ []) findings v.1 s.1
              (All-append _ selected (f ∷ []) (All-map _ _ (λ g h. h.1) selected b) (s.0, tt)),
        )
  | inr e ↦
      let (g, m, o) = is_free-false selected f e in
      subst (λ out. All (IsBeaten out) (f ∷ findings)) (select_from-taken selected findings f e)
        (
          record {
            winner = g;
            kept = select_from-keeps selected findings m;
            overlap = o;
            before = (All-mem _ m b).0;
          },
          select_from-IsBeaten selected findings v.1 s.1 (All-map _ _ (λ g h. h.1) selected b),
        )
]
