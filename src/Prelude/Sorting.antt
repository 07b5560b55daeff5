-- ===== src/Prelude/Sorting.antt =====
-- `sort_unstable_by_key` of the standard library: a rearrangement in ascending order, where the
-- order of equal keys is not fixed. Clients take any such sort; insertion sort is one.
use mathlib.Core.Path.{◌≡◌, refl}
use mathlib.Core.Logic.{inl, inr}
use mathlib.Core.Bool.{Bool, true, false}
use mathlib.Core.List.{List, [], ◌∷◌, Permᴰ}
use mathlib.Core.List.Permᴰ
use blindfold.Prelude.Tests.{if◌then◌else◌, Bool-cases}
use blindfold.Prelude.Lists.{AllPairs, All-perm, All-map}

abbrev pub Ascending {ℓ} : {A : Type ℓ} → (A → A → Bool) → List A → Type 0
Ascending le = AllPairs (λ x y. le x y ≡ true)

pub record UnstableSort {ℓ} {A : Type ℓ} (le : A → A → Bool) : Type ℓ where
  pub sort : List A → List A
  pub perm : (l : List A) → Permᴰ (sort l) l
  pub ascending : (l : List A) → Ascending le (sort l)

-- What a comparison by key promises.
pub record IsTotalOrder {ℓ} {A : Type ℓ} (le : A → A → Bool) : Type ℓ where
  pub total : (a b : A) → le a b ≡ false → le b a ≡ true
  pub trans : (a b c : A) → le a b ≡ true → le b c ≡ true → le a c ≡ true

module _ {ℓ} {A : Type ℓ} (le : A → A → Bool) where
  pub insert_by : A → List A → List A
  insert_by x [] = x ∷ []
  insert_by x (y ∷ ys) = if le x y then x ∷ y ∷ ys else y ∷ insert_by x ys

  unfoldable pub sort_by : List A → List A
  unfolding insert_by
  sort_by [] = []
  sort_by (x ∷ xs) = insert_by x (sort_by xs)

  insert_by-perm : (x : A) (l : List A) → Permᴰ (insert_by x l) (x ∷ l)
  unfolding insert_by
  insert_by-perm x [] = Permᴰ.refl (x ∷ [])
  insert_by-perm x (y ∷ ys) = elim (Bool-cases (le x y)) [
    | inl e ↦ rw e (Permᴰ.refl (x ∷ y ∷ ys))
    | inr e ↦ rw e (Permᴰ.trans (Permᴰ.cons refl (insert_by-perm x ys)) (Permᴰ.swap refl refl))
  ]

  pub sort_by-perm : (l : List A) → Permᴰ (sort_by l) l
  unfolding sort_by
  sort_by-perm [] = Permᴰ.nil
  sort_by-perm (x ∷ xs) =
      Permᴰ.trans (insert_by-perm x (sort_by xs)) (Permᴰ.cons refl (sort_by-perm xs))

  module _ (order : IsTotalOrder le) where
    insert_by-Ascending : (x : A) (l : List A) → Ascending le l → Ascending le (insert_by x l)
    unfolding insert_by
    insert_by-Ascending x [] h = (tt, tt)
    insert_by-Ascending x (y ∷ ys) h = elim (Bool-cases (le x y)) [
      | inl e ↦ rw e ((e, All-map _ _ (λ z yz. order.trans x y z e yz) ys h.0), h)
      | inr e ↦ rw e (
        All-perm _ (Permᴰ.symm (insert_by-perm x ys)) (order.total x y e, h.0),
        insert_by-Ascending x ys h.1,
      )
    ]

    pub sort_by-Ascending : (l : List A) → Ascending le (sort_by l)
    unfolding sort_by
    sort_by-Ascending [] = tt
    sort_by-Ascending (x ∷ xs) = insert_by-Ascending x (sort_by xs) (sort_by-Ascending xs)

    abbrev pub insertion_sort : UnstableSort le
    insertion_sort = record { sort = sort_by; perm = sort_by-perm; ascending = sort_by-Ascending }
