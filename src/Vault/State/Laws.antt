-- ===== src/Vault/State/Laws.antt =====
-- The map of the records.
use blindfold.Prelude.{
  All-mem, Memᴰ, ◌≡◌, ◌≢◌, refl, sym, subst, ap, ◌∙◌, inl, inr, arith, Bool, true, false, Option,
  none, some, [], ◌∷◌, Bool-cases, All, AllPairs, All-map, bytes_eq, bytes_eq→eq, bytes_eq_refl,
  if◌then◌else◌,
}
use blindfold.Prelude.Selection.{filter, filter-true, filter-false, AllPairs-filter, All-filter}
use blindfold.Core.SafeRef.{Text}
use blindfold.Vault.State.{DiskRecord, DiskState, lookup, insert, bytes_lt, retain}

-- The entries of a map stand in the order of their keys, each key once.
abbrev pub IsMap : DiskState → Type 0
IsMap = AllPairs (λ (a b : Text × DiskRecord). bytes_lt a.0 b.0 ≡ true)

bytes_lt_self : (xs : Text) → bytes_lt xs xs ≡ false
unfolding bytes_lt
bytes_lt_self [] = refl
bytes_lt_self (x ∷ xs) = ground (arith, bytes_lt_self xs)

bytes_lt_trans :
    (xs ys zs : Text) → bytes_lt xs ys ≡ true → bytes_lt ys zs ≡ true → bytes_lt xs zs ≡ true
unfolding bytes_lt
bytes_lt_trans [] [] zs h k = cc
bytes_lt_trans [] (y ∷ ys) [] h k = cc
bytes_lt_trans [] (y ∷ ys) (z ∷ zs) h k = refl
bytes_lt_trans (x ∷ xs) [] zs h k = cc
bytes_lt_trans (x ∷ xs) (y ∷ ys) [] h k = cc
bytes_lt_trans (x ∷ xs) (y ∷ ys) (z ∷ zs) h k = ground (arith, bytes_lt_trans xs ys zs, h, k)

bytes_lt-total :
    (xs ys : Text) → bytes_eq xs ys ≡ false → bytes_lt xs ys ≡ false → bytes_lt ys xs ≡ true
unfolding bytes_lt bytes_eq
bytes_lt-total [] [] h k = cc
bytes_lt-total [] (y ∷ ys) h k = cc
bytes_lt-total (x ∷ xs) [] h k = refl
bytes_lt-total (x ∷ xs) (y ∷ ys) h k = ground (arith, bytes_lt-total xs ys, h, k)

bytes_lt-other : (xs ys : Text) → bytes_lt xs ys ≡ true → xs ≢ ys
bytes_lt-other xs ys h e =
    let same : bytes_lt xs ys ≡ false = ap (bytes_lt xs) (sym e) ∙ bytes_lt_self xs in cc

bytes_eq-other : (xs ys : Text) → xs ≢ ys → bytes_eq xs ys ≡ false
bytes_eq-other xs ys n = elim (Bool-cases (bytes_eq xs ys)) [
  | inl t ↦ absurd (n (bytes_eq→eq xs ys t))
  | inr f ↦ f
]

bytes_eq-false : (xs ys : Text) → bytes_eq xs ys ≡ false → xs ≢ ys
bytes_eq-false xs ys f e =
    let t : bytes_eq xs ys ≡ true = ap (bytes_eq xs) (sym e) ∙ bytes_eq_refl xs in cc

pub lookup-insert :
    (id : Text) (r : DiskRecord) (st : DiskState) → lookup id (insert id r st) ≡ some r
unfolding lookup insert
lookup-insert id r [] = rw (bytes_eq_refl id)
lookup-insert id r ((key, x) ∷ st) = elim (Bool-cases (bytes_eq id key)) [
  | inl t ↦ rw (t, bytes_eq_refl id)
  | inr f ↦ elim (Bool-cases (bytes_lt id key)) [
    | inl t ↦ rw (f, t, bytes_eq_refl id)
    | inr g ↦ rw (f, g) (rw f (lookup-insert id r st))
  ]
]

pub lookup-insert_other :
    (other id : Text) (r : DiskRecord) (st : DiskState)
    → other ≢ id
    → lookup other (insert id r st) ≡ lookup other st
unfolding lookup insert
lookup-insert_other other id r [] n = rw (bytes_eq-other other id n)
lookup-insert_other other id r ((key, x) ∷ st) n = elim (Bool-cases (bytes_eq id key)) [
  | inl t ↦
      let away : bytes_eq other key ≡ false =
        bytes_eq-other other key (λ e. n (e ∙ sym (bytes_eq→eq id key t))) in
      rw (t, bytes_eq-other other id n, away)
  | inr f ↦ elim (Bool-cases (bytes_lt id key)) [
    | inl t ↦ rw (f, t, bytes_eq-other other id n)
    | inr g ↦ rw (f, g, lookup-insert_other other id r st n)
  ]
]

pub insert-All :
    (P : Text × DiskRecord → Type 0) (id : Text) (r : DiskRecord) (st : DiskState)
    → P (id, r)
    → All P st
    → All P (insert id r st)
unfolding insert
insert-All P id r [] p h = (p, tt)
insert-All P id r ((key, x) ∷ st) p h = elim (Bool-cases (bytes_eq id key)) [
  | inl t ↦ rw t (p, h.1)
  | inr f ↦ elim (Bool-cases (bytes_lt id key)) [
    | inl t ↦ rw (f, t) (p, h)
    | inr g ↦ rw (f, g) (h.0, insert-All P id r st p h.1)
  ]
]

abbrev pub keep : (DiskRecord → Bool) → Option DiskRecord → Option DiskRecord
keep p none = none
keep p (some r) = if p r then some r else none

lookup-absent :
    (id : Text) (st : DiskState)
    → All (λ (e : Text × DiskRecord). id ≢ e.0) st
    → lookup id st ≡ none
unfolding lookup
lookup-absent id [] h = refl
lookup-absent id ((key, x) ∷ st) h = rw (bytes_eq-other id key h.0, lookup-absent id st h.1)

-- What is kept of the map is what is kept of each lookup.
pub lookup-retain :
    (p : DiskRecord → Bool) (id : Text) (st : DiskState)
    → IsMap st
    → lookup id (retain p st) ≡ keep p (lookup id st)
unfolding lookup retain
lookup-retain p id [] m = unfold filter in refl
lookup-retain p id ((key, x) ∷ st) m =
    let q : Text × DiskRecord → Bool = λ entry. p entry.1 in
    elim (Bool-cases (p x)) [
      | inl t ↦ elim (Bool-cases (bytes_eq id key)) [
        | inl e ↦ rw (filter-true q (key, x) st t, e, t)
        | inr f ↦ rw (filter-true q (key, x) st t, f) (lookup-retain p id st m.1)
      ]
      | inr g ↦ elim (Bool-cases (bytes_eq id key)) [
        | inl e ↦
            let gone =
              All-filter q (λ (entry : Text × DiskRecord). id ≢ entry.0) st
                (All-map _ _
                  (λ entry n same. bytes_lt-other key entry.0 n (sym (bytes_eq→eq id key e) ∙ same))
                  st m.0) in
            rw (filter-false q (key, x) st g, e, g) (lookup-absent id (filter q st) gone)
        | inr f ↦ rw (filter-false q (key, x) st g, f) (lookup-retain p id st m.1)
      ]
    ]

pub insert-IsMap : (id : Text) (r : DiskRecord) (st : DiskState) → IsMap st → IsMap (insert id r st)
unfolding insert
insert-IsMap id r [] m = (tt, tt)
insert-IsMap id r ((key, x) ∷ st) m = elim (Bool-cases (bytes_eq id key)) [
  | inl t ↦
      let same = bytes_eq→eq id key t in
      rw t (
        subst (λ k. All (λ (entry : Text × DiskRecord). bytes_lt k entry.0 ≡ true) st) (sym same)
            m.0,
        m.1,
      )
  | inr f ↦ elim (Bool-cases (bytes_lt id key)) [
    | inl t ↦ rw (f, t) ((t, All-map _ _ (λ entry n. bytes_lt_trans id key entry.0 t n) st m.0), m)
    | inr g ↦
        rw (f, g)
          (
            insert-All (λ entry. bytes_lt key entry.0 ≡ true) id r st (bytes_lt-total id key f g)
                m.0,
            insert-IsMap id r st m.1,
          )
  ]
]

pub retain-IsMap : (p : DiskRecord → Bool) (st : DiskState) → IsMap st → IsMap (retain p st)
unfolding retain
retain-IsMap p st m = AllPairs-filter (λ entry. p entry.1) _ st m

pub lookup-mem :
    (id : Text) (r : DiskRecord) (st : DiskState)
    → IsMap st
    → Memᴰ (id, r) st
    → lookup id st ≡ some r
unfolding lookup
lookup-mem id r [] m i = elim i [ ]
lookup-mem id r ((key, x) ∷ st) m (Memᴰ.head e) =
    let same : id ≡ key = ap (λ (p : Text × DiskRecord). p.0) e in
    let t : bytes_eq id key ≡ true = ap (bytes_eq id) (sym same) ∙ bytes_eq_refl id in
    rw t (ap (λ (p : Text × DiskRecord). some p.1) (sym e))
lookup-mem id r ((key, x) ∷ st) m (Memᴰ.tail i) =
    let below : bytes_lt key id ≡ true =
      All-mem (λ (p : Text × DiskRecord). bytes_lt key p.0 ≡ true) i m.0 in
    rw (bytes_eq-other id key (λ e. bytes_lt-other key id below (sym e))) (lookup-mem id r st m.1 i)
