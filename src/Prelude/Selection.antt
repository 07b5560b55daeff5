-- ===== src/Prelude/Selection.antt =====
-- `filter` and `min_by_key` of an iterator, and when they do not depend on the order of the list.
use mathlib.Core.List.Permᴰ
use Prim.Native.Nat.{ℕ, suc, ◌≤◌}
use mathlib.Core.Path.{◌≡◌, refl, sym, ap, subst, ◌∙◌}
use mathlib.Core.Logic.{◌≢◌, inl, inr}
use mathlib.Core.Bool.{Bool, true, false}
use mathlib.Core.Option.{Option, none, some}
use mathlib.Core.List.{List, [], ◌∷◌, ◌++◌, Memᴰ, Permᴰ}
use native.Mathlib.Omega.{arith}
use blindfold.Prelude.Tests.{ltb, ltb→lt, if◌then◌else◌, Bool-cases}
use blindfold.Prelude.Lists.{length, All, AllPairs, All-map, All-mem, mem-perm}

module _ {ℓ} {A : Type ℓ} (p : A → Bool) where
  unfoldable pub filter : List A → List A
  filter [] = []
  filter (x ∷ xs) = if p x then x ∷ filter xs else filter xs

  pub filter-true : (x : A) (xs : List A) → p x ≡ true → filter (x ∷ xs) ≡ x ∷ filter xs
  unfolding filter
  filter-true x xs e = rw e

  pub filter-false : (x : A) (xs : List A) → p x ≡ false → filter (x ∷ xs) ≡ filter xs
  unfolding filter
  filter-false x xs e = rw e

  filter-perm_cons :
      (x : A) (xs ys : List A)
      → Permᴰ (filter xs) (filter ys)
      → Permᴰ (filter (x ∷ xs)) (filter (x ∷ ys))
  filter-perm_cons x xs ys h = elim (Bool-cases (p x)) [
    | inl t ↦ rw (filter-true x xs t, filter-true x ys t) (Permᴰ.cons refl h)
    | inr f ↦ rw (filter-false x xs f, filter-false x ys f) h
  ]

  filter-perm_swap : (x y : A) (l : List A) → Permᴰ (filter (x ∷ y ∷ l)) (filter (y ∷ x ∷ l))
  unfolding filter
  filter-perm_swap x y l = elim (Bool-cases (p x)) [
    | inl t ↦ elim (Bool-cases (p y)) [
      | inl u ↦ rw (t, u) (Permᴰ.swap refl refl)
      | inr g ↦ rw (t, g) (Permᴰ.refl (x ∷ filter l))
    ]
    | inr f ↦ elim (Bool-cases (p y)) [
      | inl u ↦ rw (f, u) (Permᴰ.refl (y ∷ filter l))
      | inr g ↦ rw (f, g) (Permᴰ.refl (filter l))
    ]
  ]

  pub filter-perm : {xs ys : List A} → Permᴰ xs ys → Permᴰ (filter xs) (filter ys)
  filter-perm Permᴰ.nil = Permᴰ.refl (filter [])
  filter-perm (Permᴰ.cons {a = a} {l₁ = xs} {l₂ = ys} e r) =
      subst (λ x. Permᴰ (filter (a ∷ xs)) (filter (x ∷ ys))) e
        (filter-perm_cons a xs ys (filter-perm r))
  filter-perm (Permᴰ.swap {a = a} {b = b} {a' = c} {l = l} e f) =
      subst (λ x. Permᴰ (filter (a ∷ b ∷ l)) (filter (c ∷ x ∷ l))) e
        (subst (λ x. Permᴰ (filter (a ∷ b ∷ l)) (filter (x ∷ a ∷ l))) f (filter-perm_swap a b l))
  filter-perm (Permᴰ.trans r s) = Permᴰ.trans (filter-perm r) (filter-perm s)

  pub filter-All : (xs : List A) → All (λ x. Memᴰ x xs × (p x ≡ true)) (filter xs)
  unfolding filter
  filter-All [] = tt
  filter-All (y ∷ ys) =
      let later =
        All-map (λ x. Memᴰ x ys × (p x ≡ true)) (λ x. Memᴰ x (y ∷ ys) × (p x ≡ true))
          (λ x h. (Memᴰ.tail h.0, h.1)) (filter ys) (filter-All ys) in
      elim (Bool-cases (p y)) [ inl t ↦ rw t ((Memᴰ.head refl, t), later) | inr f ↦ rw f later ]

  pub filter-append : (xs ys : List A) → filter (xs ++ ys) ≡ filter xs ++ filter ys
  filter-append [] ys = unfold filter in refl
  filter-append (x ∷ xs) ys = elim (Bool-cases (p x)) [
    | inl t ↦
        filter-true x (xs ++ ys) t
        ∙ ap (◌∷◌ x) (filter-append xs ys)
        ∙ ap (λ l. l ++ filter ys) (sym (filter-true x xs t))
    | inr f ↦
        filter-false x (xs ++ ys) f
        ∙ filter-append xs ys
        ∙ ap (λ l. l ++ filter ys) (sym (filter-false x xs f))
  ]

  pub length-filter : (xs : List A) → length (filter xs) ≤ length xs
  length-filter [] = unfold filter in omega arith
  length-filter (x ∷ xs) = elim (Bool-cases (p x)) [
    | inl t ↦ rw (filter-true x xs t) (omega (arith, length-filter xs))
    | inr f ↦ rw (filter-false x xs f) (omega (arith, length-filter xs))
  ]

  -- A filter that drops nothing changes nothing.
  pub filter_all : (xs : List A) → length xs ≤ length (filter xs) → filter xs ≡ xs
  filter_all [] h = unfold filter in refl
  filter_all (x ∷ xs) h = elim (Bool-cases (p x)) [
    | inl t ↦
        filter-true x xs t
        ∙ ap (◌∷◌ x) (
            filter_all xs
              (omega (arith, subst (λ l. suc (length xs) ≤ length l) (filter-true x xs t) h)))
    | inr f ↦ absurd (
        omega (
          arith,
          length-filter xs,
          subst (λ l. suc (length xs) ≤ length l) (filter-false x xs f) h,
        ))
  ]

  pub mem-filter_of_mem : {x : A} (xs : List A) → Memᴰ x xs → p x ≡ true → Memᴰ x (filter xs)
  mem-filter_of_mem [] m t = elim m [ ]
  mem-filter_of_mem {x} (y ∷ ys) (Memᴰ.head e) t =
      rw (filter-true y ys (subst (λ z. p z ≡ true) e t)) (Memᴰ.head e)
  mem-filter_of_mem (y ∷ ys) (Memᴰ.tail m) t = elim (Bool-cases (p y)) [
    | inl u ↦ rw (filter-true y ys u) (Memᴰ.tail (mem-filter_of_mem ys m t))
    | inr f ↦ rw (filter-false y ys f) (mem-filter_of_mem ys m t)
  ]

module _ {ℓ κ} {A : Type ℓ} (p : A → Bool) where
  pub All-filter : (P : A → Type κ) (xs : List A) → All P xs → All P (filter p xs)
  unfolding filter
  All-filter P [] h = h
  All-filter P (x ∷ xs) h = elim (Bool-cases (p x)) [
    | inl t ↦ rw (filter-true p x xs t) (h.0, All-filter P xs h.1)
    | inr f ↦ rw (filter-false p x xs f) (All-filter P xs h.1)
  ]

  pub AllPairs-filter :
      (R : A → A → Type κ) (xs : List A) → AllPairs R xs → AllPairs R (filter p xs)
  unfolding filter
  AllPairs-filter R [] h = h
  AllPairs-filter R (x ∷ xs) h = elim (Bool-cases (p x)) [
    | inl t ↦ rw (filter-true p x xs t) (All-filter (R x) xs h.0, AllPairs-filter R xs h.1)
    | inr f ↦ rw (filter-false p x xs f) (AllPairs-filter R xs h.1)
  ]

mem-skip {ℓ} : {A : Type ℓ} {m b x : A} {xs : List A} → Memᴰ m (b ∷ xs) → Memᴰ m (b ∷ x ∷ xs)
mem-skip (Memᴰ.head e) = Memᴰ.head e
mem-skip (Memᴰ.tail m) = Memᴰ.tail (Memᴰ.tail m)

not_before : {a b c : ℕ} → a ≤ b → ltb c b ≡ false → a ≤ c
not_before h f = ground arith

module _ {ℓ} {A : Type ℓ} (key : A → ℕ) where
  -- Of several with the least key the first is returned.
  unfoldable pub min_from : A → List A → A
  min_from best [] = best
  min_from best (x ∷ xs) = min_from (if ltb (key x) (key best) then x else best) xs

  unfoldable pub min_by_key : List A → Option A
  unfolding min_from
  min_by_key [] = none
  min_by_key (x ∷ xs) = some (min_from x xs)

  pub record IsLeast (xs : List A) (m : A) : Type ℓ where
    pub listed : Memᴰ m xs
    pub least : All (λ x. key m ≤ key x) xs

  min_from-IsLeast : (best : A) (xs : List A) → IsLeast (best ∷ xs) (min_from best xs)
  unfolding min_from
  min_from-IsLeast best [] = record { listed = Memᴰ.head refl; least = (omega arith, tt) }
  min_from-IsLeast best (x ∷ xs) = elim (Bool-cases (ltb (key x) (key best))) [
    | inl t ↦
        let r = min_from-IsLeast x xs in
        rw t (record {
          listed = Memᴰ.tail r.listed;
          least = (omega (arith, r.least.0, ltb→lt (key x) (key best) t), r.least);
        })
    | inr f ↦
        let r = min_from-IsLeast best xs in
        rw f (record {
          listed = mem-skip r.listed;
          least = (r.least.0, (not_before (r.least.0) f, r.least.1));
        })
  ]

  pub min_by_key-IsLeast : (xs : List A) (m : A) → min_by_key xs ≡ some m → IsLeast xs m
  unfolding min_by_key
  min_by_key-IsLeast [] m e = cc
  min_by_key-IsLeast (x ∷ xs) m e = subst (IsLeast (x ∷ xs)) (cc e) (min_from-IsLeast x xs)

  pub min_by_key-none : (xs : List A) → min_by_key xs ≡ none → xs ≡ []
  unfolding min_by_key
  min_by_key-none [] e = refl
  min_by_key-none (x ∷ xs) e = cc

  abbrev pub HasDistinctKeys : List A → Type 0
  HasDistinctKeys = AllPairs (λ x y. key x ≢ key y)

  same_key :
      (m n : A) (xs : List A) → HasDistinctKeys xs → Memᴰ m xs → Memᴰ n xs → key m ≡ key n → m ≡ n
  same_key m n [] d i j e = elim i [ ]
  same_key m n (x ∷ xs) d (Memᴰ.head p) (Memᴰ.head q) e = p ∙ sym q
  same_key m n (x ∷ xs) d (Memᴰ.head p) (Memᴰ.tail j) e =
      absurd (All-mem (λ y. key x ≢ key y) j d.0 (sym (ap key p) ∙ e))
  same_key m n (x ∷ xs) d (Memᴰ.tail i) (Memᴰ.head q) e =
      absurd (All-mem (λ y. key x ≢ key y) i d.0 (sym (ap key q) ∙ sym e))
  same_key m n (x ∷ xs) d (Memᴰ.tail i) (Memᴰ.tail j) e = same_key m n xs d.1 i j e

  -- With distinct keys the least is the same in every order.
  pub min_by_key-perm :
      {xs ys : List A} → HasDistinctKeys xs → Permᴰ xs ys → min_by_key xs ≡ min_by_key ys
  min_by_key-perm {xs} {ys} d r = go (min_by_key xs) (min_by_key ys) refl refl
    where
      go : (a b : Option A) → min_by_key xs ≡ a → min_by_key ys ≡ b → a ≡ b
      go none none e f = refl
      go none (some n) e f =
          let i = mem-perm (Permᴰ.symm r) (min_by_key-IsLeast ys n f).listed in
          elim (subst (Memᴰ n) (min_by_key-none xs e) i) [ ]
      go (some m) none e f =
          let i = mem-perm r (min_by_key-IsLeast xs m e).listed in
          elim (subst (Memᴰ m) (min_by_key-none ys f) i) [ ]
      go (some m) (some n) e f =
          let a = min_by_key-IsLeast xs m e in
          let b = min_by_key-IsLeast ys n f in
          let j = mem-perm (Permᴰ.symm r) b.listed in
          ap some (
            same_key m n xs d a.listed j
              (omega (arith, All-mem _ j a.least, All-mem _ (mem-perm r a.listed) b.least)))
