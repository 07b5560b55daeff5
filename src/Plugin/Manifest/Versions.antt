-- ===== src/Plugin/Manifest/Versions.antt =====
-- crates/blindfold-plugin-api/src/lib.rs: the version requirements that are accepted.
use blindfold.Prelude.{
  ◌≡◌, ◌≢◌, ◌⊎◌, inl, inr, refl, Bool, true, false, List, [], ◌∷◌, &&_true, All, Memᴰ,
}
use blindfold.Plugin.Manifest.{
  has_finite_version_bounds, bounds_from, Op, exact, greater, greater_eq, less, less_eq, tilde,
  caret, wildcard,
}

abbrev pub Below : Op → Type 0
Below less = ⊥
Below less_eq = ⊥
Below wildcard = ⊥
Below _ = Unit

abbrev pub Above : Op → Type 0
Above greater = ⊥
Above greater_eq = ⊥
Above wildcard = ⊥
Above _ = Unit

-- A bound below, a bound above, and no wildcard.
pub record IsBounded (ops : List Op) : Type 0 where
  pub lower : (op : Op) × (Memᴰ op ops × Below op)
  pub upper : (op : Op) × (Memᴰ op ops × Above op)
  pub closed : All (λ op. op ≢ wildcard) ops

-- The flag was set, or a comparator sets it.
abbrev IsKnown : (Op → Type 0) → Bool → List Op → Type 0
IsKnown P flag ops = (flag ≡ true) ⊎ ((op : Op) × (Memᴰ op ops × P op))

later-IsKnown :
    (P : Op → Type 0) (flag : Bool) (op : Op) (ops : List Op)
    → IsKnown P flag ops
    → IsKnown P flag (op ∷ ops)
later-IsKnown P flag op ops (inl e) = inl e
later-IsKnown P flag op ops (inr (o, (m, p))) = inr (o, (Memᴰ.tail m, p))

bounds_from-lower : (l u : Bool) (ops : List Op) → bounds_from l u ops ≡ true → IsKnown Below l ops
unfolding bounds_from
bounds_from-lower l u [] h = inl (&&_true l u h).0
bounds_from-lower l u (wildcard ∷ ops) h = cc
bounds_from-lower l u (less ∷ ops) h =
    later-IsKnown Below l less ops (bounds_from-lower l true ops h)
bounds_from-lower l u (less_eq ∷ ops) h =
    later-IsKnown Below l less_eq ops (bounds_from-lower l true ops h)
bounds_from-lower l u (exact ∷ ops) h = inr (exact, (Memᴰ.head refl, tt))
bounds_from-lower l u (tilde ∷ ops) h = inr (tilde, (Memᴰ.head refl, tt))
bounds_from-lower l u (caret ∷ ops) h = inr (caret, (Memᴰ.head refl, tt))
bounds_from-lower l u (greater ∷ ops) h = inr (greater, (Memᴰ.head refl, tt))
bounds_from-lower l u (greater_eq ∷ ops) h = inr (greater_eq, (Memᴰ.head refl, tt))

bounds_from-upper : (l u : Bool) (ops : List Op) → bounds_from l u ops ≡ true → IsKnown Above u ops
unfolding bounds_from
bounds_from-upper l u [] h = inl (&&_true l u h).1
bounds_from-upper l u (wildcard ∷ ops) h = cc
bounds_from-upper l u (greater ∷ ops) h =
    later-IsKnown Above u greater ops (bounds_from-upper true u ops h)
bounds_from-upper l u (greater_eq ∷ ops) h =
    later-IsKnown Above u greater_eq ops (bounds_from-upper true u ops h)
bounds_from-upper l u (exact ∷ ops) h = inr (exact, (Memᴰ.head refl, tt))
bounds_from-upper l u (tilde ∷ ops) h = inr (tilde, (Memᴰ.head refl, tt))
bounds_from-upper l u (caret ∷ ops) h = inr (caret, (Memᴰ.head refl, tt))
bounds_from-upper l u (less ∷ ops) h = inr (less, (Memᴰ.head refl, tt))
bounds_from-upper l u (less_eq ∷ ops) h = inr (less_eq, (Memᴰ.head refl, tt))

bounds_from-closed :
    (l u : Bool) (ops : List Op) → bounds_from l u ops ≡ true → All (λ op. op ≢ wildcard) ops
unfolding bounds_from
bounds_from-closed l u [] h = tt
bounds_from-closed l u (wildcard ∷ ops) h = cc
bounds_from-closed l u (less ∷ ops) h = ((λ e. cc), bounds_from-closed l true ops h)
bounds_from-closed l u (less_eq ∷ ops) h = ((λ e. cc), bounds_from-closed l true ops h)
bounds_from-closed l u (exact ∷ ops) h = ((λ e. cc), bounds_from-closed true true ops h)
bounds_from-closed l u (tilde ∷ ops) h = ((λ e. cc), bounds_from-closed true true ops h)
bounds_from-closed l u (caret ∷ ops) h = ((λ e. cc), bounds_from-closed true true ops h)
bounds_from-closed l u (greater ∷ ops) h = ((λ e. cc), bounds_from-closed true u ops h)
bounds_from-closed l u (greater_eq ∷ ops) h = ((λ e. cc), bounds_from-closed true u ops h)

-- A flag that was not set at the start.
found : (P : Op → Type 0) (ops : List Op) → IsKnown P false ops → (op : Op) × (Memᴰ op ops × P op)
found P ops (inl e) = cc
found P ops (inr x) = x

pub has_finite_version_bounds-IsBounded :
    (ops : List Op) → has_finite_version_bounds ops ≡ true → IsBounded ops
unfolding has_finite_version_bounds
has_finite_version_bounds-IsBounded ops h = record {
  lower = found Below ops (bounds_from-lower false false ops h);
  upper = found Above ops (bounds_from-upper false false ops h);
  closed = bounds_from-closed false false ops h;
}
