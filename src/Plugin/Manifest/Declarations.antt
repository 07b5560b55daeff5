-- ===== src/Plugin/Manifest/Declarations.antt =====
-- crates/blindfold-plugin-api/src/lib.rs: what a list of declarations has that is accepted.
use blindfold.Prelude.{
  ==_iff, ==_refl, ℕ, ◌≤◌, ◌≡◌, ◌≢◌, inl, inr, refl, sym, ap, ◌∙◌, arith, true, false, none, List,
  [], ◌∷◌, map, ltb, ◌==◌, Bool-cases, length, All, AllPairs, Memᴰ,
}
use blindfold.Plugin.Manifest.{
  Event, model_request, model_response, NetworkPermission, model_proxy, FilesystemPermission,
  workspace_read, event_rank, network_rank, filesystem_rank, duplicate_declaration,
  too_many_declarations, has, to_set, validate_unique, validate_nonempty_unique,
}
use blindfold.Plugin.Manifest.Checks.{refuse-none, first_error-none, not-false, ||_false}

-- At most 16 values, none of them twice.
pub record IsUnique (ranks : List ℕ) : Type 0 where
  pub few : length ranks ≤ 16
  pub distinct : AllPairs (λ a b. a ≢ b) ranks

-- A value is there if its rank is among the ranks.
module _ {A : Type 0} (rank : A → ℕ) (a : A)
    (only : (x : A) → (rank x == rank a) ≡ true → a ≡ x) where
  pub has-Mem : (xs : List A) → has (map rank xs) (rank a) ≡ true → Memᴰ a xs
  unfolding has
  has-Mem [] h = cc
  has-Mem (x ∷ xs) h = elim (Bool-cases (rank x == rank a)) [
    | inl e ↦ Memᴰ.head (only x e)
    | inr e ↦ Memᴰ.tail (has-Mem xs (rw e at h))
  ]

pub Mem-has :
    {A : Type 0} (rank : A → ℕ) (a : A) (xs : List A)
    → Memᴰ a xs
    → has (map rank xs) (rank a) ≡ true
unfolding has
Mem-has rank a [] h = elim h [ ]
Mem-has rank a (x ∷ xs) (Memᴰ.head e) =
    rw (ap (λ y. y == rank a) (ap rank (sym e)) ∙ ==_refl (rank a)) refl
Mem-has rank a (x ∷ xs) (Memᴰ.tail h) = elim (Bool-cases (rank x == rank a)) [
  | inl e ↦ rw e refl
  | inr e ↦ rw e (Mem-has rank a xs h)
]

pub only_request :
    (e : Event) → (event_rank e == event_rank model_request) ≡ true → model_request ≡ e
only_request model_request h = refl
only_request _ h = cc

pub only_response :
    (e : Event) → (event_rank e == event_rank model_response) ≡ true → model_response ≡ e
only_response model_response h = refl
only_response _ h = cc

pub only_proxy :
    (n : NetworkPermission) → (network_rank n == network_rank model_proxy) ≡ true → model_proxy ≡ n
only_proxy model_proxy h = refl
only_proxy _ h = cc

pub only_read :
    (f : FilesystemPermission)
    → (filesystem_rank f == filesystem_rank workspace_read) ≡ true
    → workspace_read ≡ f
only_read workspace_read h = refl
only_read _ h = cc

to_set-length : (xs : List ℕ) → length (to_set xs) ≤ length xs
unfolding to_set
to_set-length [] = omega arith
to_set-length (x ∷ xs) = ground (arith, to_set-length xs)

absent : (xs : List ℕ) (x : ℕ) → has xs x ≡ false → All (λ y. x ≢ y) xs
unfolding has
absent [] x h = tt
absent (y ∷ ys) x h =
    let (e, rest) = ||_false (y == x) (has ys x) h in (ground (arith, e), absent ys x rest)

-- A set of a list is as long as it if it is the list, without a value that comes twice.
to_set-whole :
    (xs : List ℕ) → length (to_set xs) ≡ length xs → (to_set xs ≡ xs) × AllPairs (λ a b. a ≢ b) xs
unfolding to_set
to_set-whole [] h = (refl, tt)
to_set-whole (x ∷ xs) h = elim (Bool-cases (has (to_set xs) x)) [
  | inl e ↦
      let dropped : length (to_set xs) ≡ length (x ∷ xs) = rw e at h in
      absurd (omega (arith, to_set-length xs, dropped))
  | inr e ↦
      let kept : length (x ∷ to_set xs) ≡ length (x ∷ xs) = rw e at h in
      let (same, distinct) = to_set-whole xs (omega (arith, kept)) in
      (rw e (ap (◌∷◌ x) same), (absent xs x (sym (ap (λ ys. has ys x) same) ∙ e), distinct))
]

pub validate_unique-IsUnique : (ranks : List ℕ) → validate_unique ranks ≡ none → IsUnique ranks
unfolding validate_unique
validate_unique-IsUnique ranks h =
    let (few, once) = first_error-none _ _ h in
    let same = not-false _ (refuse-none _ duplicate_declaration once) in
    record {
      few =
          let short : ltb 16 (length ranks) ≡ false = refuse-none _ too_many_declarations few in
          ground (arith, short);
      distinct = (to_set-whole ranks ((==_iff _ _).0 same)).1;
    }

pub validate_nonempty_unique-IsUnique :
    (ranks : List ℕ) → validate_nonempty_unique ranks ≡ none → IsUnique ranks
unfolding validate_nonempty_unique
validate_nonempty_unique-IsUnique ranks h =
    validate_unique-IsUnique ranks (first_error-none _ _ h).1
