-- ===== src/Prelude/Lists.antt =====
-- Lists measured by native numbers, predicates on all members and on all pairs, and how
-- rearrangement keeps them.
use Prim.Native.Nat.add
use Prim.Native.Nat.{ℕ, zero, suc, ◌+◌, ◌-◌, ◌≤◌, min}
use mathlib.Core.Path.{◌≡◌, refl, ap, sym, subst}
use mathlib.Core.List.{List, [], ◌∷◌, ◌++◌, map, Memᴰ, Permᴰ}
use mathlib.Core.List.Permᴰ
use native.Mathlib.Omega.{arith}

module _ {ℓ} {A : Type ℓ} where
  abbrev pub length : List A → ℕ
  length [] = 0
  length (x ∷ xs) = suc (length xs)

  abbrev pub take : ℕ → List A → List A
  take zero xs = []
  take (suc n) [] = []
  take (suc n) (x ∷ xs) = x ∷ take n xs

  abbrev pub drop : ℕ → List A → List A
  drop zero xs = xs
  drop (suc n) [] = []
  drop (suc n) (x ∷ xs) = drop n xs

  pub length-append : (xs ys : List A) → length (xs ++ ys) ≡ length xs + length ys
  length-append [] ys = omega arith
  length-append (x ∷ xs) ys = omega (arith, length-append xs ys)

  pub length-take : (n : ℕ) (xs : List A) → length (take n xs) ≡ min n (length xs)
  length-take zero xs = omega arith
  length-take (suc n) [] = omega arith
  length-take (suc n) (x ∷ xs) = omega (arith, length-take n xs)

  pub length-drop : (n : ℕ) (xs : List A) → length (drop n xs) ≡ length xs - n
  length-drop zero xs = omega arith
  length-drop (suc n) [] = omega arith
  length-drop (suc n) (x ∷ xs) = omega (arith, length-drop n xs)

  pub take-append-drop : (n : ℕ) (xs : List A) → take n xs ++ drop n xs ≡ xs
  take-append-drop zero xs = refl
  take-append-drop (suc n) [] = refl
  take-append-drop (suc n) (x ∷ xs) = rw (take-append-drop n xs)

  pub drop-append : (n : ℕ) (xs ys : List A) → n ≤ length xs → drop n (xs ++ ys) ≡ drop n xs ++ ys
  drop-append zero xs ys h = refl
  drop-append (suc n) [] ys h = absurd (omega arith)
  drop-append (suc n) (x ∷ xs) ys h = drop-append n xs ys (omega arith)

  pub drop-length-append : (xs ys : List A) → drop (length xs) (xs ++ ys) ≡ ys
  drop-length-append [] ys = refl
  drop-length-append (x ∷ xs) ys = drop-length-append xs ys

  pub take-length-append : (xs ys : List A) → take (length xs) (xs ++ ys) ≡ xs
  take-length-append [] ys = refl
  take-length-append (x ∷ xs) ys = ap (◌∷◌ x) (take-length-append xs ys)

  pub take_all : (n : ℕ) (xs : List A) → length xs ≤ n → take n xs ≡ xs
  take_all zero [] h = refl
  take_all zero (x ∷ xs) h = absurd (omega arith)
  take_all (suc n) [] h = refl
  take_all (suc n) (x ∷ xs) h = ap (◌∷◌ x) (take_all n xs (omega arith))

  drop-nil : (n : ℕ) → drop n [] ≡ []
  drop-nil zero = refl
  drop-nil (suc n) = refl

  pub drop_all : (n : ℕ) (xs : List A) → length xs ≤ n → drop n xs ≡ []
  drop_all n [] h = drop-nil n
  drop_all zero (x ∷ xs) h = absurd (omega arith)
  drop_all (suc n) (x ∷ xs) h = drop_all n xs (omega arith)

  pub drop-drop : (m n : ℕ) (xs : List A) → drop m (drop n xs) ≡ drop (n + m) xs
  drop-drop m zero xs = rw add.zero
  drop-drop m (suc n) [] = rw (drop-nil m, add.suc)
  drop-drop m (suc n) (x ∷ xs) = rw (drop-drop m n xs, add.suc)

module _ {ℓ κ} {A : Type ℓ} where
  abbrev pub All : (A → Type κ) → List A → Type κ
  All P [] = Unit
  All P (x ∷ xs) = P x × All P xs

  abbrev pub AllPairs : (A → A → Type κ) → List A → Type κ
  AllPairs R [] = Unit
  AllPairs R (x ∷ xs) = All (R x) xs × AllPairs R xs

module _ {ℓ κ} {A : Type ℓ} (P : A → Type κ) where
  pub All-append : (xs ys : List A) → All P xs → All P ys → All P (xs ++ ys)
  All-append [] ys hx hy = hy
  All-append (x ∷ xs) ys hx hy = (hx.0, All-append xs ys hx.1 hy)

  pub All-perm : {xs ys : List A} → Permᴰ xs ys → All P xs → All P ys
  All-perm Permᴰ.nil h = h
  All-perm (Permᴰ.cons e p) h = (subst P e h.0, All-perm p h.1)
  All-perm (Permᴰ.swap e f) h = (subst P f h.1.0, (subst P e h.0, h.1.1))
  All-perm (Permᴰ.trans p q) h = All-perm q (All-perm p h)

  pub All-of_forall : (xs : List A) → ((x : A) → Memᴰ x xs → P x) → All P xs
  All-of_forall [] h = tt
  All-of_forall (x ∷ xs) h = (h x (Memᴰ.head refl), All-of_forall xs (λ y m. h y (Memᴰ.tail m)))

  pub All-mem : {x : A} {xs : List A} → Memᴰ x xs → All P xs → P x
  All-mem (Memᴰ.head e) h = subst P (sym e) h.0
  All-mem (Memᴰ.tail m) h = All-mem m h.1

module _ {ℓ κ μ} {A : Type ℓ} (P : A → Type κ) (Q : A → Type μ) where
  pub All-map : ((x : A) → P x → Q x) → (xs : List A) → All P xs → All Q xs
  All-map f [] h = tt
  All-map f (x ∷ xs) h = (f x h.0, All-map f xs h.1)

  pub All-and : (xs : List A) → All P xs → All Q xs → All (λ x. P x × Q x) xs
  All-and [] p q = tt
  All-and (x ∷ xs) p q = ((p.0, q.0), All-and xs p.1 q.1)

module _ {ℓ κ μ ν} {A : Type ℓ} (R : A → A → Type κ) (S : A → A → Type μ) (T : A → A → Type ν)
    (P : A → Type 0) (both : (x y : A) → P x → P y → R x y → S x y → T x y) where
  All-both : (x : A) (xs : List A) → P x → All P xs → All (R x) xs → All (S x) xs → All (T x) xs
  All-both x [] p ps r s = tt
  All-both x (y ∷ ys) p ps r s = (both x y p ps.0 r.0 s.0, All-both x ys p ps.1 r.1 s.1)

  -- What two relations give on members with a property.
  pub AllPairs-both : (xs : List A) → All P xs → AllPairs R xs → AllPairs S xs → AllPairs T xs
  AllPairs-both [] p r s = tt
  AllPairs-both (x ∷ xs) p r s = (All-both x xs p.0 p.1 r.0 s.0, AllPairs-both xs p.1 r.1 s.1)

module _ {ℓ κ} {A : Type ℓ} (R : A → A → Type κ) (symm : (x y : A) → R x y → R y x) where
  -- A symmetric relation on all pairs survives a rearrangement.
  pub AllPairs-perm : {xs ys : List A} → Permᴰ xs ys → AllPairs R xs → AllPairs R ys
  AllPairs-perm Permᴰ.nil h = h
  AllPairs-perm (Permᴰ.cons {l₂ = l} e p) h =
      (subst (λ x. All (R x) l) e (All-perm (R _) p h.0), AllPairs-perm p h.1)
  AllPairs-perm (Permᴰ.swap {a = a} {b = b} {a' = c} {b' = d} {l = l} e f) h = (
    (subst (λ x. R x d) f (subst (R b) e (symm a b h.0.0)), subst (λ x. All (R x) l) f h.1.0),
    (subst (λ x. All (R x) l) e h.0.1, h.1.1),
  )
  AllPairs-perm (Permᴰ.trans p q) h = AllPairs-perm q (AllPairs-perm p h)

module _ {ℓ} {A : Type ℓ} where
  pub mem-perm : {a : A} {xs ys : List A} → Permᴰ xs ys → Memᴰ a xs → Memᴰ a ys
  mem-perm {a} {xs} {ys} p m =
      All-mem (λ x. Memᴰ x ys) m
        (All-perm (λ x. Memᴰ x ys) (Permᴰ.symm p) (All-of_forall (λ x. Memᴰ x ys) ys (λ x k. k)))

module _ {ℓ κ} {A : Type ℓ} {B : Type κ} (f : A → B) where
  pub map-perm : {xs ys : List A} → Permᴰ xs ys → Permᴰ (map f xs) (map f ys)
  map-perm Permᴰ.nil = Permᴰ.nil
  map-perm (Permᴰ.cons e p) = Permᴰ.cons (ap f e) (map-perm p)
  map-perm (Permᴰ.swap e g) = Permᴰ.swap (ap f e) (ap f g)
  map-perm (Permᴰ.trans p q) = Permᴰ.trans (map-perm p) (map-perm q)

module _ {ℓ κ μ} {A : Type ℓ} {B : Type κ} (f : A → B) (R : B → B → Type μ) where
  All-map_from : (b : B) (xs : List A) → All (R b) (map f xs) → All (λ x. R b (f x)) xs
  All-map_from b [] h = tt
  All-map_from b (x ∷ xs) h = (h.0, All-map_from b xs h.1)

  pub AllPairs-map_from : (xs : List A) → AllPairs R (map f xs) → AllPairs (λ x y. R (f x) (f y)) xs
  AllPairs-map_from [] h = tt
  AllPairs-map_from (x ∷ xs) h = (All-map_from (f x) xs h.0, AllPairs-map_from xs h.1)

module _ {ℓ κ} {A : Type ℓ} (R : A → A → Type κ) where
  All-left : (P : A → Type κ) (xs ys : List A) → All P (xs ++ ys) → All P xs
  All-left P [] ys h = tt
  All-left P (x ∷ xs) ys h = (h.0, All-left P xs ys h.1)

  pub AllPairs-left : (xs ys : List A) → AllPairs R (xs ++ ys) → AllPairs R xs
  AllPairs-left [] ys h = tt
  AllPairs-left (x ∷ xs) ys h = (All-left (R x) xs ys h.0, AllPairs-left xs ys h.1)

  pub AllPairs-right : (xs ys : List A) → AllPairs R (xs ++ ys) → AllPairs R ys
  AllPairs-right [] ys h = h
  AllPairs-right (x ∷ xs) ys h = AllPairs-right xs ys h.1
