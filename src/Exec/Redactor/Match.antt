-- ===== src/Exec/Redactor/Match.antt =====
-- What `match_length` finds: the longest of the given patterns that starts here, or none; and how
-- much of the stream that answer depends on.
use blindfold.Prelude.{
  bytes_eq, bytes_eq→eq, ℕ, ◌≤◌, ◌≡◌, refl, sym, subst, inl, inr, true, false, none, some, List, [],
  ◌∷◌, ◌++◌, Memᴰ, arith, Bool-cases, Option-cases, length, All, AllPairs, All-map,
}
use blindfold.Prelude.Sorting.{Ascending}
use blindfold.Exec.Redactor.{
  Bytes, starts_with, match_length, dedup_after, dedup, longest, longer_first,
}

-- A pattern starts the bytes exactly if they are the pattern and a rest.
pub starts_with→eq :
    (bytes p : Bytes) → starts_with bytes p ≡ true → (rest : Bytes) × (bytes ≡ p ++ rest)
unfolding starts_with
starts_with→eq bytes [] h = (bytes, refl)
starts_with→eq [] (q ∷ p) h = cc
starts_with→eq (b ∷ bytes) (q ∷ p) h =
    let (rest, e) = starts_with→eq bytes p (ground arith) in (rest, ground (arith, e))

pub eq→starts_with : (p rest : Bytes) → starts_with (p ++ rest) p ≡ true
unfolding starts_with
eq→starts_with [] rest = refl
eq→starts_with (b ∷ p) rest = ground (arith, eq→starts_with p rest)

pub starts_with-length : (bytes p : Bytes) → starts_with bytes p ≡ true → length p ≤ length bytes
unfolding starts_with
starts_with-length bytes [] h = omega arith
starts_with-length [] (q ∷ p) h = cc
starts_with-length (b ∷ bytes) (q ∷ p) h = ground (arith, starts_with-length bytes p)

pub starts_with-append :
    (bytes more p : Bytes)
    → length p ≤ length bytes
    → starts_with (bytes ++ more) p ≡ starts_with bytes p
unfolding starts_with
starts_with-append bytes more [] h = refl
starts_with-append [] more (q ∷ p) h = absurd (omega arith)
starts_with-append (b ∷ bytes) more (q ∷ p) h = ground (arith, starts_with-append bytes more p)

-- Enough bytes in view, and more of them change nothing.
pub match_length-append :
    (patterns : List Bytes) (bytes more : Bytes)
    → All (λ p. length p ≤ length bytes) patterns
    → match_length patterns (bytes ++ more) ≡ match_length patterns bytes
unfolding match_length
match_length-append [] bytes more h = refl
match_length-append (p ∷ patterns) bytes more h =
    rw (starts_with-append bytes more p h.0, match_length-append patterns bytes more h.1)

pub record Matches (patterns : List Bytes) (bytes : Bytes) (n : ℕ) : Type 0 where
  pub pattern : Bytes
  pub listed : Memᴰ pattern patterns
  pub starts : starts_with bytes pattern ≡ true
  pub size : length pattern ≡ n

pub match_length→Matches :
    (patterns : List Bytes) (bytes : Bytes) (n : ℕ)
    → match_length patterns bytes ≡ some n
    → Matches patterns bytes n
unfolding match_length
match_length→Matches [] bytes n h = cc
match_length→Matches (p ∷ patterns) bytes n h = elim (Bool-cases (starts_with bytes p)) [
  | inl e ↦ record { pattern = p; listed = Memᴰ.head refl; starts = e; size = ground (arith, e) }
  | inr e ↦
      let m = match_length→Matches patterns bytes n (ground (arith, e)) in
      record { pattern = m.pattern; listed = Memᴰ.tail m.listed; starts = m.starts; size = m.size }
]

-- In a list with the longer patterns first, the first that fits is a longest one.
pub match_length-longest :
    (patterns : List Bytes) (bytes : Bytes) (n : ℕ)
    → Ascending longer_first patterns
    → match_length patterns bytes ≡ some n
    → All (λ q. starts_with bytes q ≡ true → length q ≤ n) patterns
unfolding match_length
match_length-longest [] bytes n s h = tt
match_length-longest (p ∷ patterns) bytes n s h = elim (Bool-cases (starts_with bytes p)) [
  | inl e ↦ (
    λ _. ground (arith, e),
    All-map (λ q. longer_first p q ≡ true) (λ q. starts_with bytes q ≡ true → length q ≤ n)
        (λ q le _. ground (arith, e)) patterns s.0,
  )
  | inr e ↦ (λ f. cc, match_length-longest patterns bytes n s.1 (ground (arith, e)))
]

pub match_length-none :
    (patterns : List Bytes) (bytes : Bytes)
    → match_length patterns bytes ≡ none
    → All (λ q. starts_with bytes q ≡ false) patterns
unfolding match_length
match_length-none [] bytes h = tt
match_length-none (p ∷ patterns) bytes h =
    (ground arith, match_length-none patterns bytes (ground arith))

module _ {κ} (P : Bytes → Type κ) where
  pub dedup_after-All : (last : Bytes) (ps : List Bytes) → All P ps → All P (dedup_after last ps)
  unfolding dedup_after
  dedup_after-All last [] h = tt
  dedup_after-All last (p ∷ ps) h = elim (Bool-cases (bytes_eq p last)) [
    | inl e ↦ rw e (dedup_after-All last ps h.1)
    | inr e ↦ rw e (h.0, dedup_after-All p ps h.1)
  ]

  pub dedup-All : (ps : List Bytes) → All P ps → All P (dedup ps)
  unfolding dedup
  dedup-All [] h = tt
  dedup-All (p ∷ ps) h = (h.0, dedup_after-All p ps h.1)

  pub All-dedup_after :
      (last : Bytes) (ps : List Bytes) → P last → All P (dedup_after last ps) → All P ps
  unfolding dedup_after
  All-dedup_after last [] l h = tt
  All-dedup_after last (p ∷ ps) l h = elim (Bool-cases (bytes_eq p last)) [
    | inl e ↦ (subst P (sym (bytes_eq→eq p last e)) l, All-dedup_after last ps l (rw e at h))
    | inr e ↦
        let h' : P p × All P (dedup_after p ps) = rw e at h in
        (h'.0, All-dedup_after p ps h'.0 h'.1)
  ]

  pub All-dedup : (ps : List Bytes) → All P (dedup ps) → All P ps
  unfolding dedup
  All-dedup [] h = tt
  All-dedup (p ∷ ps) h = (h.0, All-dedup_after p ps h.0 h.1)

module _ {κ} (R : Bytes → Bytes → Type κ) where
  pub dedup_after-AllPairs :
      (last : Bytes) (ps : List Bytes) → AllPairs R ps → AllPairs R (dedup_after last ps)
  unfolding dedup_after
  dedup_after-AllPairs last [] h = tt
  dedup_after-AllPairs last (p ∷ ps) h = elim (Bool-cases (bytes_eq p last)) [
    | inl e ↦ rw e (dedup_after-AllPairs last ps h.1)
    | inr e ↦ rw e (dedup_after-All (R p) p ps h.0, dedup_after-AllPairs p ps h.1)
  ]

  pub dedup-AllPairs : (ps : List Bytes) → AllPairs R ps → AllPairs R (dedup ps)
  unfolding dedup
  dedup-AllPairs [] h = tt
  dedup-AllPairs (p ∷ ps) h = (dedup_after-All (R p) p ps h.0, dedup_after-AllPairs p ps h.1)

pub longest-none : (qs : List Bytes) → longest qs ≡ none → qs ≡ []
unfolding longest
longest-none [] e = refl
longest-none (q ∷ qs) e = cc

pub longest-le : (ps : List Bytes) (m : ℕ) → longest ps ≡ some m → All (λ p. length p ≤ m) ps
unfolding longest
longest-le [] m h = tt
longest-le (p ∷ ps) m h = elim (Option-cases (longest ps)) [
  | inl e ↦ (ground (arith, e), subst (λ l. All (λ q. length q ≤ m) l) (sym (longest-none ps e)) tt)
  | inr (k, e) ↦ (
    ground (arith, e),
    All-map (λ q. length q ≤ k) (λ q. length q ≤ m) (λ q le. ground (arith, e)) ps
        (longest-le ps k e),
  )
]
